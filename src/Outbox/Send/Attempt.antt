-- ===== src/Outbox/Send/Attempt.antt =====
-- src/integration/publish-outbox.ts and the outbox bridge of marmot-adapter.ts: what an attempt to send
-- makes of its entry, and which event it attributes.
use notestr.Prelude.{
  ℕ, any, ◌≡◌, refl, sym, subst, ap, ◌∙◌, Text, true, false, Option, none, some, List, [], ◌∷◌, map,
  keep, same_refl,
}
use notestr.Prelude.Dict.{
  get, has, set, delete, IsMap, set-IsMap, has-none, get-set_here, get-delete_here,
}
use notestr.Domain.Events.{or_else}
use notestr.Engine.Types.{NostrEvent}
use notestr.Outbox.{OutboxEntry, failed}
use notestr.Outbox.Bridge.{
  Bridge, OutboxWindowState, mark_entry, mark_outbox_attempt_started, mark_outbox_sent,
  mark_outbox_sent_fallback, mark_outbox_failed, get_outbox_entry, is_pending,
}
use notestr.Outbox.Windows.{
  begin_outbox_publish_window, end_outbox_publish_window, remove_outbox_expectation, remove_first,
  attribute, attributed_id,
}
use notestr.Outbox.Send.{
  published, run_steps, SendRun, settle_attempt, drop_expectation, do_attempt_send,
}
use notestr.Outbox.Send.Attribution.{
  is_of_tag, sole_id, count_all, no_event, attributed_id-count_all, run_published-Counted,
}
use notestr.Persistence.{is_empty}
use notestr.Outbox.Send.Marks.{
  SameRoutes, mark_entry-Tracks, started, attributed, attempted, mark_outbox_sent-Tracks,
  mark_outbox_sent_fallback-Tracks, settled_as,
}

-- A send during which only these events are published.
abbrev pub publishing : List NostrEvent → Option Text → ℕ → ℕ → SendRun
publishing events failure started_at ended_at = record {
  steps = map published events;
  failure = failure;
  started_at = started_at;
  ended_at = ended_at;
}

module _ (h_tag : Text) where
  -- The tag has no open window and no expected event.
  pub record Idle (b : Bridge) : Type 0 where
    pub no_dispatch : get h_tag b.dispatch_in_flight ≡ none
    pub no_window : get h_tag b.window_state ≡ none
    pub no_expected : get h_tag b.expected_by_h_tag ≡ none

  -- Each dictionary of the bridge holds a key once.
  pub record IsBridge (b : Bridge) : Type 0 where
    pub dispatch_once : IsMap b.dispatch_in_flight
    pub window_once : IsMap b.window_state
    pub expected_once : IsMap b.expected_by_h_tag

  Idle-same : (b b' : Bridge) → SameRoutes b b' → Idle b → Idle b'
  Idle-same b b' r i = record {
    no_dispatch = ap (get h_tag) r.0 ∙ i.no_dispatch;
    no_window = ap (get h_tag) r.1 ∙ i.no_window;
    no_expected = ap (get h_tag) r.2 ∙ i.no_expected;
  }

  IsBridge-same : (b b' : Bridge) → SameRoutes b b' → IsBridge b → IsBridge b'
  IsBridge-same b b' r i = record {
    dispatch_once = subst IsMap (sym r.0) i.dispatch_once;
    window_once = subst IsMap (sym r.1) i.window_once;
    expected_once = subst IsMap (sym r.2) i.expected_once;
  }

  -- The windows after `beginOutboxPublishWindow` and what is published in it.
  record Opened (id : Text) (s : OutboxWindowState) (b b' : Bridge) : Type 0 where
    same_entries : b'.entries ≡ b.entries
    busy : b'.dispatch_in_flight ≡ set h_tag 1 b.dispatch_in_flight
    window : get h_tag b'.window_state ≡ some s
    window_once : IsMap b'.window_state
    expected : b'.expected_by_h_tag ≡ set h_tag (id ∷ []) b.expected_by_h_tag

  begin-Opened :
      (id : Text) (b : Bridge)
      → Idle b
      → IsBridge b
      → Opened id no_event b (begin_outbox_publish_window h_tag id b)
  unfolding begin_outbox_publish_window
  begin-Opened id b idle once =
      let absent : has h_tag b.window_state ≡ false =
        has-none h_tag b.window_state idle.no_window in
      record {
        same_entries = refl;
        busy = rw idle.no_dispatch refl;
        window = rw absent (get-set_here h_tag no_event b.window_state);
        window_once = rw absent (set-IsMap h_tag no_event b.window_state once.window_once);
        expected = rw idle.no_expected refl;
      }

  published-Opened :
      (id : Text) (events : List NostrEvent) (b : Bridge)
      → is_empty h_tag ≡ false
      → Idle b
      → IsBridge b
      → Opened id
          (count_all (keep (is_of_tag h_tag) events) no_event)
          b
          (run_steps (map published events) (begin_outbox_publish_window h_tag id b))
  published-Opened id events b filled idle once =
      let o = begin-Opened id b idle once in
      let v = begin_outbox_publish_window h_tag id b in
      let one : get h_tag v.dispatch_in_flight ≡ some 1 =
        ap (get h_tag) o.busy ∙ get-set_here h_tag 1 b.dispatch_in_flight in
      let (e, w, m) =
        run_published-Counted h_tag events v no_event filled one o.window o.window_once in
      record {
        same_entries = ap (λ (c : Bridge). c.entries) e ∙ o.same_entries;
        busy = ap (λ (c : Bridge). c.dispatch_in_flight) e ∙ o.busy;
        window = w;
        window_once = m;
        expected = ap (λ (c : Bridge). c.expected_by_h_tag) e ∙ o.expected;
      }

  -- The close of the only window of the tag.
  close-attribute :
      (now : ℕ) (s : OutboxWindowState) (b : Bridge)
      → get h_tag b.dispatch_in_flight ≡ some 1
      → get h_tag b.window_state ≡ some s
      → end_outbox_publish_window h_tag now b
        ≡ attribute h_tag s now (or_else (get h_tag b.expected_by_h_tag) []) (record b {
          dispatch_in_flight = delete h_tag b.dispatch_in_flight;
          window_state = delete h_tag b.window_state;
        })
  unfolding end_outbox_publish_window
  close-attribute now s b busy window = rw (busy, window) refl

  remove-only :
      (id : Text) (b : Bridge)
      → get h_tag b.expected_by_h_tag ≡ some (id ∷ [])
      → remove_outbox_expectation h_tag id b
        ≡ record b { expected_by_h_tag = delete h_tag b.expected_by_h_tag }
  unfolding remove_outbox_expectation any remove_first
  remove-only id b queue = rw (queue, remove_outbox_expectation) (rw (same_refl id) refl)

  -- The end of an attempt whose send failed: nothing is attributed.
  end-failed :
      (id : Text) (s : OutboxWindowState) (now : ℕ) (b b' : Bridge)
      → IsBridge b
      → Opened id s b b'
      → let c = end_outbox_publish_window h_tag now (remove_outbox_expectation h_tag id b') in
        Idle c × (c.entries ≡ b.entries)
  unfolding attribute
  end-failed id s now b b' once o =
      let queue : get h_tag b'.expected_by_h_tag ≡ some (id ∷ []) =
        ap (get h_tag) o.expected ∙ get-set_here h_tag (id ∷ []) b.expected_by_h_tag in
      let one : get h_tag b'.dispatch_in_flight ≡ some 1 =
        ap (get h_tag) o.busy ∙ get-set_here h_tag 1 b.dispatch_in_flight in
      let gone : get h_tag (delete h_tag b'.expected_by_h_tag) ≡ none =
        get-delete_here h_tag b'.expected_by_h_tag (
          subst IsMap (sym o.expected)
            (set-IsMap h_tag (id ∷ []) b.expected_by_h_tag once.expected_once)) in
      let c = record b' { expected_by_h_tag = delete h_tag b'.expected_by_h_tag } in
      rw (remove-only id b' queue, close-attribute now s c one o.window, gone)
        (
          record {
            no_dispatch = get-delete_here h_tag b'.dispatch_in_flight (
                subst IsMap (sym o.busy)
                  (set-IsMap h_tag 1 b.dispatch_in_flight once.dispatch_once));
            no_window = get-delete_here h_tag b'.window_state o.window_once;
            no_expected = gone;
          },
          o.same_entries,
        )

  -- The end of an attempt whose send went through.
  end-sent :
      (id : Text) (s : OutboxWindowState) (now : ℕ) (e : OutboxEntry) (b b' : Bridge)
      → is_empty id ≡ false
      → IsBridge b
      → Opened id s b b'
      → get id b.entries ≡ some e
      → is_pending e.status ≡ true
      → let c = end_outbox_publish_window h_tag now b' in
        Idle c × (get id c.entries ≡ some (attributed (attributed_id s) now e))
  unfolding attribute
  end-sent id s now e b b' named once o tracked waiting =
      let queue : get h_tag b'.expected_by_h_tag ≡ some (id ∷ []) =
        ap (get h_tag) o.expected ∙ get-set_here h_tag (id ∷ []) b.expected_by_h_tag in
      let one : get h_tag b'.dispatch_in_flight ≡ some 1 =
        ap (get h_tag) o.busy ∙ get-set_here h_tag 1 b.dispatch_in_flight in
      let closed = record b' {
        dispatch_in_flight = delete h_tag b'.dispatch_in_flight;
        window_state = delete h_tag b'.window_state;
        expected_by_h_tag = delete h_tag b'.expected_by_h_tag;
      } in
      let idle : Idle closed = record {
        no_dispatch =
            get-delete_here h_tag b'.dispatch_in_flight (
              subst IsMap (sym o.busy) (set-IsMap h_tag 1 b.dispatch_in_flight once.dispatch_once));
        no_window = get-delete_here h_tag b'.window_state o.window_once;
        no_expected = get-delete_here h_tag b'.expected_by_h_tag (
            subst IsMap (sym o.expected)
              (set-IsMap h_tag (id ∷ []) b.expected_by_h_tag once.expected_once));
      } in
      let here : get id b'.entries ≡ some e = ap (get id) o.same_entries ∙ tracked in
      rw (close-attribute now s b' one o.window, queue, named)
        (go (attributed_id s) closed idle here)
    where
      go :
          (x : Option Text) (c : Bridge)
          → Idle c
          → get id c.entries ≡ some e
          → let d = elim x as (λ o. Bridge) [ none ↦ c | some y ↦ mark_outbox_sent id y now c ] in
            Idle d × (get id d.entries ≡ some (attributed x now e))
      go none c i h = (i, h)
      go (some y) c i h =
          let t = mark_outbox_sent-Tracks id y now e c h waiting in (Idle-same c _ t.1 i, t.0)

  settle-Tracks :
      (entry : OutboxEntry) (failure : Option Text) (now : ℕ) (e : OutboxEntry) (b : Bridge)
      → get entry.rumor_id b.entries ≡ some e
      → Idle b
      → let d = settle_attempt entry failure now b in
        (get entry.rumor_id d.entries ≡ some (settled_as failure now e)) × Idle d
  unfolding settle_attempt mark_outbox_failed
  settle-Tracks entry (some error) now e b h i =
      let f = λ (x : OutboxEntry). record x {
        status = failed;
        last_attempt_at = some now;
        last_error = some error;
      } in
      let t = mark_entry-Tracks f entry.rumor_id e b h in
      let k = Idle-same b (mark_entry f entry.rumor_id b) t.1 i in
      (
        t.0,
        record {
          no_dispatch = k.no_dispatch;
          no_window = k.no_window;
          no_expected = k.no_expected;
        },
      )
  settle-Tracks entry none now e b h i =
      let t = mark_outbox_sent_fallback-Tracks entry.rumor_id now e b h in
      (t.0, Idle-same b (mark_outbox_sent_fallback entry.rumor_id now b) t.1 i)

  settled_as-attributed :
      (x : Option Text) (from to : ℕ) (e : OutboxEntry)
      → settled_as none to (attributed x to (started from e)) ≡ attempted none x to e
  settled_as-attributed none from to e = refl
  settled_as-attributed (some id) from to e = refl

  -- An attempt to send, for an entry that is tracked and a tag with no open window, when what happens
  -- during the send is that events of any kinds are published. A send that fails leaves the entry
  -- failed, with the error and one more attempt, and attributes nothing, whatever was published before
  -- it failed. A send that goes through leaves the entry sent, with one more attempt; the event that it
  -- is known by is the published kind-445 event of the tag where there was exactly one, and otherwise
  -- the one it was known by before. Either way no window and no expected event of the tag are left over.
  pub do_attempt_send-attempted :
      (entry : OutboxEntry) (e : OutboxEntry) (events : List NostrEvent) (failure : Option Text)
      (started_at ended_at : ℕ) (b : Bridge)
      → is_empty h_tag ≡ false
      → is_empty entry.rumor_id ≡ false
      → get_outbox_entry entry.rumor_id b ≡ some e
      → Idle b
      → IsBridge b
      → let (result, b') =
          do_attempt_send h_tag entry (publishing events failure started_at ended_at) b in
        (result ≡ some (attempted failure (sole_id (keep (is_of_tag h_tag) events)) ended_at e))
        × Idle b'
  unfolding do_attempt_send get_outbox_entry mark_outbox_attempt_started
  do_attempt_send-attempted entry e events failure from to b filled named tracked idle once =
      let t = mark_entry-Tracks (started from) entry.rumor_id e b tracked in
      let b₁ = mark_entry (started from) entry.rumor_id b in
      let still = IsBridge-same b b₁ t.1 once in
      let o = published-Opened entry.rumor_id events b₁ filled (Idle-same b b₁ t.1 idle) still in
      go failure b₁ _ t.0 still o
    where
      s : OutboxWindowState
      s = count_all (keep (is_of_tag h_tag) events) no_event

      go :
          (failure : Option Text) (b₁ b₃ : Bridge)
          → get entry.rumor_id b₁.entries ≡ some (started from e)
          → IsBridge b₁
          → Opened entry.rumor_id s b₁ b₃
          → let c =
              end_outbox_publish_window h_tag to
                (drop_expectation h_tag entry.rumor_id failure b₃) in
            let d = settle_attempt entry failure to c in
            (get entry.rumor_id d.entries
              ≡ some (attempted failure (sole_id (keep (is_of_tag h_tag) events)) to e))
            × Idle d
      go (some error) b₁ b₃ h once o =
          let (i, same_entries) = end-failed entry.rumor_id s to b₁ b₃ once o in
          settle-Tracks entry (some error) to (started from e) _
            (ap (get entry.rumor_id) same_entries ∙ h) i
      go none b₁ b₃ h once o =
          let (i, k) = end-sent entry.rumor_id s to (started from e) b₁ b₃ named once o h refl in
          let x = settle-Tracks entry none to _ (end_outbox_publish_window h_tag to b₃) k i in
          (
            x.0
                ∙ ap some (
                    settled_as-attributed (attributed_id s) from to e
                    ∙ ap (λ (y : Option Text). attempted none y to e)
                        (attributed_id-count_all (keep (is_of_tag h_tag) events))),
            x.1,
          )
