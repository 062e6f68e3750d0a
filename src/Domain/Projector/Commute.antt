-- ===== src/Domain/Projector/Commute.antt =====
-- Two writes of one field to tasks commute.
use notestr.Prelude.{
  ◌≡◌, ◌⊎◌, inl, inr, refl, sym, ap, ◌∙◌, true, false, some, none, [], ◌∷◌, arith, same, same_iff,
  same_refl, Text, Option-cases, Bool-cases,
}
use notestr.Prelude.Dict.{Dict, get, set, get-set}
use notestr.Domain.Events.{Task, TieBreakFields}
use notestr.Domain.TieBreak.{task_wins_over}
use notestr.Domain.TieBreak.Order.{
  SameStamp, task_wins_over_irrefl, task_wins_over_trans, task_wins_over_asymm,
  task_wins_over_total,
}
use notestr.Domain.Projector.{TaskProjection, stored, if_wins}
use notestr.Domain.Projector.Invariant.{if_wins_hit, if_wins_loses, if_wins_missing}

module _ {ℓ} {V : Type ℓ} where
  set-set_self : (k : Text) (v w : V) (m : Dict V) → set k v (set k w m) ≡ set k v m
  unfolding set
  set-set_self k v w [] = ground (arith, same_refl k)
  set-set_self k v w ((j, u) ∷ m) = ground (arith, set-set_self k v w m)

  -- Writes to two present keys commute.
  set-set_comm :
      (k j : Text) (v w x y : V) (m : Dict V)
      → same k j ≡ false
      → get k m ≡ some x
      → get j m ≡ some y
      → set k v (set j w m) ≡ set j w (set k v m)
  unfolding set get
  set-set_comm k j v w x y [] ne hk hj = cc
  set-set_comm k j v w x y ((i, u) ∷ m) ne hk hj =
      ground (arith, set-set_comm k j v w x y m ne, same_iff i k, same_iff i j, same_iff k j)

flip_stamp : {a b : TieBreakFields} → SameStamp a b → SameStamp b a
flip_stamp h = record {
  same_time = sym h.same_time;
  same_author = sym h.same_author;
  same_device = sym h.same_device;
}

-- What loses to a third stamp does not win over one that wins over the third.
loser :
    (a b c : TieBreakFields)
    → task_wins_over a c ≡ true
    → task_wins_over b c ≡ false
    → task_wins_over b a ≡ false
loser a b c ac bc = ground (arith, task_wins_over_trans b a c)

-- One write of a field: the task, the value and the writer.
pub record FieldWrite {ℓ} (A : Type ℓ) : Type ℓ where
  pub task_id : Text
  pub value : A
  pub stamp : TieBreakFields

-- Two writes that tie on one task write the same.
abbrev pub Agree {ℓ} : {A : Type ℓ} → FieldWrite A → FieldWrite A → Type ℓ
Agree e f = e.task_id ≡ f.task_id → SameStamp e.stamp f.stamp → e.value ≡ f.value

module _ {A : Type 0} (put : A → Task → Task)
    (put_put : (a b : A) (v w : TieBreakFields) (t : Task)
      → record (put a (record (put b t) { stamp = v })) { stamp = w }
        ≡ record (put a t) { stamp = w }) where
  out : FieldWrite A → Task → Task
  out e t = record (put e.value t) { stamp = stored e.stamp }

  unfoldable pub write : TaskProjection → FieldWrite A → TaskProjection
  unfolding out
  write p e = if_wins p e.task_id e.stamp λ t. set e.task_id (out e t) p

  write_hit :
      (p : TaskProjection) (e : FieldWrite A) (t : Task)
      → get e.task_id p ≡ some t
      → task_wins_over e.stamp t.stamp ≡ true
      → write p e ≡ set e.task_id (out e t) p
  unfolding write
  write_hit p e t h w = if_wins_hit p e.task_id e.stamp _ t h w

  write_loses :
      (p : TaskProjection) (e : FieldWrite A) (t : Task)
      → get e.task_id p ≡ some t
      → task_wins_over e.stamp t.stamp ≡ false
      → write p e ≡ p
  unfolding write
  write_loses p e t h w = if_wins_loses p e.task_id e.stamp _ t h w

  write_missing : (p : TaskProjection) (e : FieldWrite A) → get e.task_id p ≡ none → write p e ≡ p
  unfolding write
  write_missing p e h = if_wins_missing p e.task_id e.stamp _ h

  wins_out :
      (e f : FieldWrite A) (t : Task)
      → task_wins_over f.stamp (out e t).stamp ≡ task_wins_over f.stamp e.stamp
  unfolding out task_wins_over
  wins_out e f t = refl

  out-out : (e f : FieldWrite A) (t : Task) → out f (out e t) ≡ out f t
  unfolding out
  out-out e f t = put_put f.value e.value (stored e.stamp) (stored f.stamp) t

  out_tie :
      (e f : FieldWrite A) (t : Task)
      → SameStamp e.stamp f.stamp
      → e.value ≡ f.value
      → out e t ≡ out f t
  unfolding out
  out_tie e f t s v = ground (arith, s.same_time, s.same_author, s.same_device)

  get-set_self : (i : Text) (t : Task) (p : TaskProjection) → get i (set i t p) ≡ some t
  get-set_self i t p = ground (arith, get-set i i t p, same_refl i)

  -- A second write of the same task that wins over the first one, or does not.
  again_wins :
      (p : TaskProjection) (e f : FieldWrite A) (t : Task)
      → e.task_id ≡ f.task_id
      → task_wins_over f.stamp e.stamp ≡ true
      → write (set e.task_id (out e t) p) f ≡ set f.task_id (out f t) p
  again_wins p e f t i w =
      write_hit (set e.task_id (out e t) p) f (out e t)
        (ground (arith, get-set_self e.task_id (out e t) p)) (wins_out e f t ∙ w)
      ∙ ground (arith, out-out e f t, set-set_self f.task_id (out f t) (out e t) p)

  again_loses :
      (p : TaskProjection) (e f : FieldWrite A) (t : Task)
      → e.task_id ≡ f.task_id
      → task_wins_over f.stamp e.stamp ≡ false
      → write (set e.task_id (out e t) p) f ≡ set e.task_id (out e t) p
  again_loses p e f t i w =
      write_loses (set e.task_id (out e t) p) f (out e t)
        (ground (arith, get-set_self e.task_id (out e t) p)) (wins_out e f t ∙ w)

  -- Two writes to one task commute.
  write_comm_self :
      (p : TaskProjection) (e f : FieldWrite A) (t : Task)
      → Agree e f
      → e.task_id ≡ f.task_id
      → get e.task_id p ≡ some t
      → get f.task_id p ≡ some t
      → write (write p e) f ≡ write (write p f) e
  write_comm_self p e f t agree i he hf = elim (Bool-cases (task_wins_over e.stamp t.stamp)) [
    | inl we ↦ elim (Bool-cases (task_wins_over f.stamp t.stamp)) [
      | inl wf ↦
          rw (write_hit p e t he we, write_hit p f t hf wf)
            (elim (task_wins_over_total e.stamp f.stamp) [
              | inl ef ↦
                  again_loses p e f t i (task_wins_over_asymm e.stamp f.stamp ef)
                  ∙ sym (again_wins p f e t (sym i) ef)
              | inr (inl fe) ↦
                  again_wins p e f t i fe
                  ∙ sym (again_loses p f e t (sym i) (task_wins_over_asymm f.stamp e.stamp fe))
              | inr (inr tie) ↦
                  again_loses p e f t i (task_wins_over_irrefl f.stamp e.stamp (flip_stamp tie))
                  ∙ ground (arith, out_tie e f t tie (agree i tie))
                  ∙ sym (again_loses p f e t (sym i) (task_wins_over_irrefl e.stamp f.stamp tie))
            ])
      | inr lf ↦
          rw (write_hit p e t he we, write_loses p f t hf lf)
            (again_loses p e f t i (loser e.stamp f.stamp t.stamp we lf)
              ∙ sym (write_hit p e t he we))
    ]
    | inr le ↦ elim (Bool-cases (task_wins_over f.stamp t.stamp)) [
      | inl wf ↦
          rw (write_loses p e t he le, write_hit p f t hf wf)
            (sym (again_loses p f e t (sym i) (loser f.stamp e.stamp t.stamp wf le)))
      | inr lf ↦
          rw (write_loses p e t he le, write_loses p f t hf lf) (sym (write_loses p e t he le))
    ]
  ]

  -- What a write does to two maps that agree on its task: nothing to both, or the same to both.
  abbrev Effect : TaskProjection → TaskProjection → FieldWrite A → Type 0
  Effect p q e =
      ((write p e ≡ p) × (write q e ≡ q))
      ⊎ ((t : Task) × (get e.task_id p ≡ some t)
          × (write p e ≡ set e.task_id (out e t) p)
          × (write q e ≡ set e.task_id (out e t) q))

  effect :
      (p q : TaskProjection) (e : FieldWrite A) → get e.task_id q ≡ get e.task_id p → Effect p q e
  effect p q e h = elim (Option-cases (get e.task_id p)) [
    | inl n ↦ inl (write_missing p e n, write_missing q e (h ∙ n))
    | inr (t, n) ↦ elim (Bool-cases (task_wins_over e.stamp t.stamp)) [
      | inl w ↦ inr (t, n, write_hit p e t n w, write_hit q e t (h ∙ n) w)
      | inr w ↦ inl (write_loses p e t n w, write_loses q e t (h ∙ n) w)
    ]
  ]

  get-write_ne :
      (p : TaskProjection) (e : FieldWrite A) (j : Text)
      → same e.task_id j ≡ false
      → get j (write p e) ≡ get j p
  get-write_ne p e j ne = elim (effect p p e refl) [
    | inl (h, _) ↦ ap (get j) h
    | inr (t, n, h, _) ↦ rw h (ground (arith, get-set e.task_id j (out e t) p))
  ]

  same_flip : (a b : Text) → same a b ≡ false → same b a ≡ false
  same_flip a b h = ground (arith, same_iff a b, same_iff b a)

  write_comm_ne :
      (p : TaskProjection) (e f : FieldWrite A)
      → same e.task_id f.task_id ≡ false
      → write (write p e) f ≡ write (write p f) e
  write_comm_ne p e f ne =
      elim (effect p (write p f) e (get-write_ne p f e.task_id (same_flip _ _ ne))) [
        | inl (ep, eq) ↦ elim (effect p (write p e) f (get-write_ne p e f.task_id ne)) [
          | inl (fp, fq) ↦ cc
          | inr (t, n, fp, fq) ↦ cc (ap (set f.task_id (out f t)) ep)
        ]
        | inr (u, m, ep, eq) ↦ elim (effect p (write p e) f (get-write_ne p e f.task_id ne)) [
          | inl (fp, fq) ↦ cc (ap (set e.task_id (out e u)) fp)
          | inr (t, n, fp, fq) ↦ cc (
            ap (set f.task_id (out f t)) ep,
            ap (set e.task_id (out e u)) fp,
            set-set_comm f.task_id e.task_id (out f t) (out e u) t u p (same_flip _ _ ne) n m,
          )
        ]
      ]

  pub write_comm :
      (p : TaskProjection) (e f : FieldWrite A)
      → Agree e f
      → write (write p e) f ≡ write (write p f) e
  write_comm p e f agree = elim (Bool-cases (same e.task_id f.task_id)) [
    | inr ne ↦ write_comm_ne p e f ne
    | inl eq ↦ elim (Option-cases (get e.task_id p)) [
      | inr (t, h) ↦
          write_comm_self p e f t agree ((same_iff _ _).0 eq) h
            (ground (arith, same_iff e.task_id f.task_id))
      | inl n ↦
          let m : get f.task_id p ≡ none = ground (arith, same_iff e.task_id f.task_id) in
          rw (write_missing p e n, write_missing p f m) (sym (write_missing p e n))
    ]
  ]
