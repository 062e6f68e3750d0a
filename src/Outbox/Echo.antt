-- ===== src/Outbox/Echo.antt =====
-- src/integration/marmot-adapter.ts: which entry a returning event reconciles.
use notestr.Prelude.{
  ℕ, ◌≡◌, refl, sym, ap, subst, Text, true, false, Option, none, some, [], ◌∷◌, any, same, same_iff,
  arith, Option-cases, inl, inr,
}
use notestr.Prelude.Dict.{Dict, get, has, set, delete, IsMap, set-IsMap, get-delete_here}
use notestr.Outbox.{OutboxEntry, persist_entry}
use notestr.Outbox.Bridge.{
  Bridge, pending_cleared, is_hooked, notify_outbox_persist, clear_outbox_entry,
}
use notestr.Outbox.Windows.{
  is_id, is_reconciled, echoes, observed, first_echoed, reconcile_own_echo,
}

-- How the match of a returning event ends: no tracked entry of the group waits for it, and nothing
-- changes; or one does, and it is told and stored as reconciled, and tracked no longer.
pub data EchoEnds (fact_id group_id : Text) (now : ℕ) (b : Bridge)
    : Option OutboxEntry × Bridge → Type 0 where
  unmatched :
      any (λ (e : Text × OutboxEntry). echoes fact_id group_id e.1) b.entries ≡ false
      → EchoEnds fact_id group_id now b (none, b)
  matched :
      {b' : Bridge} (k : Text) (e : OutboxEntry)
      → get k b.entries ≡ some e
      → e.sent_event_id ≡ some fact_id
      → e.group_id ≡ group_id
      → is_reconciled e.status ≡ false
      → get k b'.entries ≡ none
      → b'.stored ≡ persist_entry group_id (observed now e) b.stored
      → b'.notices ≡ pending_cleared e.rumor_id ∷ b.notices
      → EchoEnds fact_id group_id now b (some (observed now e), b')

first_echoed-none :
    (fact_id g : Text) (m : Dict OutboxEntry)
    → first_echoed fact_id g m ≡ none
    → any (λ (e : Text × OutboxEntry). echoes fact_id g e.1) m ≡ false
unfolding first_echoed any
first_echoed-none fact_id g [] h = refl
first_echoed-none fact_id g ((k, e) ∷ m) h = ground (arith, first_echoed-none fact_id g m)

first_echoed-some :
    (fact_id g k : Text) (e : OutboxEntry) (m : Dict OutboxEntry)
    → IsMap m
    → first_echoed fact_id g m ≡ some (k, e)
    → (get k m ≡ some e) × (has k m ≡ true) × (echoes fact_id g e ≡ true)
unfolding first_echoed get has
first_echoed-some fact_id g k e [] once h = cc
first_echoed-some fact_id g k e ((j, x) ∷ m) once h =
    ground (arith, same_iff j k, first_echoed-some fact_id g k e m once.1)

is_id-some : (id : Text) (o : Option Text) → is_id id o ≡ true → o ≡ some id
is_id-some id none h = cc
is_id-some id (some x) h = ap some ((same_iff x id).0 h)

echoes-parts :
    (fact_id g : Text) (e : OutboxEntry)
    → echoes fact_id g e ≡ true
    → (is_id fact_id e.sent_event_id ≡ true)
      × (same e.group_id g ≡ true)
      × (is_reconciled e.status ≡ false)
echoes-parts fact_id g e h = ground arith

notify-effects :
    (e : OutboxEntry) (g : Text) (now : ℕ) (b : Bridge)
    → e.group_id ≡ g
    → is_hooked g b ≡ true
    → ((notify_outbox_persist (observed now e) b).stored
        ≡ persist_entry g (observed now e) b.stored)
      × ((notify_outbox_persist (observed now e) b).notices
          ≡ pending_cleared e.rumor_id ∷ b.notices)
unfolding notify_outbox_persist
notify-effects e g now b p h = ground arith

notify-entries : (e : OutboxEntry) (b : Bridge) → (notify_outbox_persist e b).entries ≡ b.entries
unfolding notify_outbox_persist
notify-entries e b = ground arith

-- Where the outbox of the group has its hooks registered, a returning event reconciles an entry only if it is exactly the event that the entry was sent as, in
-- the entry's own group, and the entry is not reconciled yet: then that entry is told, stored as
-- reconciled and tracked no longer. Where no tracked entry is such, nothing changes. The content of the
-- task plays no part.
pub reconcile_own_echo-EchoEnds :
    (fact_id group_id : Text) (now : ℕ) (b : Bridge)
    → IsMap b.entries
    → is_hooked group_id b ≡ true
    → EchoEnds fact_id group_id now b (reconcile_own_echo fact_id group_id now b)
unfolding reconcile_own_echo clear_outbox_entry
reconcile_own_echo-EchoEnds fact_id g now b once hooked =
    elim (Option-cases (first_echoed fact_id g b.entries)) [
      | inl n ↦ rw (n, reconcile_own_echo) (unmatched (first_echoed-none fact_id g b.entries n))
      | inr ((k, e), n) ↦
          let (here, present, found) = first_echoed-some fact_id g k e b.entries once n in
          let (id, group, fresh) = echoes-parts fact_id g e found in
          let of_group = (same_iff e.group_id g).0 group in
          let v = record b { entries = set k (observed now e) b.entries } in
          let told = notify-effects e g now v of_group hooked in
          rw (n, reconcile_own_echo)
            (matched k e here (is_id-some fact_id e.sent_event_id id) of_group fresh (gone k e)
              told.0 told.1)
    ]
  where
    gone :
        (k : Text) (e : OutboxEntry)
        → get k (
            delete k
              (notify_outbox_persist
                (observed now e)
                (record b { entries = set k (observed now e) b.entries })).entries)
          ≡ none
    gone k e =
        let v = record b { entries = set k (observed now e) b.entries } in
        subst (λ m. get k (delete k m) ≡ none) (sym (notify-entries (observed now e) v))
          (get-delete_here k v.entries (set-IsMap k (observed now e) b.entries once))
