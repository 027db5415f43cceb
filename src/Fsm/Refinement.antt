-- ===== src/Fsm/Refinement.antt =====
-- The handlers do to the batch what Spec says of the entries.
pub mod Puts
pub mod Deletes
pub mod Commands
use regatta.Prelude.{
  ◌≡◌, refl, ap, sym, ◌∙◌, Bool, true, false, arith, if◌then◌else◌, Bool-cases, inl, inr,
}
use regatta.Result.{Result, ok, err, panic, ◌>>=◌}
use regatta.Pebble.{Pebble, PebbleLaws}
use regatta.Pebble.OrderedMap.{Entries}
use regatta.Fsm.Context.{UpdateContext, ensure_indexed}

module _ (p : Pebble) (laws : PebbleLaws p) where
  open laws use {view, base}

  -- The batch of the context was made for its database.
  abbrev pub IsReady : UpdateContext p → Type 0
  IsReady c = base c.batch ≡ c.db

  -- The context keeps everything but its batch.
  pub record SameContext (c c' : UpdateContext p) : Type 0 where
    pub ready : base c'.batch ≡ c.db
    pub same_db : c'.db ≡ c.db
    pub same_index : c'.index ≡ c.index
    pub same_leader_index : c'.leader_index ≡ c.leader_index
    pub stays_indexed : p.indexed c.batch ≡ true → p.indexed c'.batch ≡ true

  pub SameContext-refl : (c : UpdateContext p) → IsReady c → SameContext c c
  SameContext-refl c h = record {
    ready = h;
    same_db = refl;
    same_index = refl;
    same_leader_index = refl;
    stays_indexed = λ i. i;
  }

  pub SameContext-trans :
      {a b c : UpdateContext p} → SameContext a b → SameContext b c → SameContext a c
  SameContext-trans h k = record {
    ready = k.ready ∙ h.same_db;
    same_db = k.same_db ∙ h.same_db;
    same_index = k.same_index ∙ h.same_index;
    same_leader_index = k.same_leader_index ∙ h.same_leader_index;
    stays_indexed = λ i. k.stays_indexed (h.stays_indexed i);
  }

  -- The call of a handler on `c` has the outcome that the specification has: both return a value,
  -- the batch shows the specified entries and the responses agree; or both fail alike.
  abbrev pub Refines :
      {R : Type 0} → UpdateContext p → Result (UpdateContext p × R) → Result (Entries × R) → Type 0
  Refines c (ok (c', r)) (ok (m, r')) = SameContext c c' × (view c'.batch ≡ m) × (r ≡ r')
  Refines c (err e) (err e') = e ≡ e'
  Refines c panic panic = Unit
  Refines c _ _ = ⊥

  pub Refines-after :
      {R : Type 0} (c c' : UpdateContext p) (h : Result (UpdateContext p × R))
      (s : Result (Entries × R))
      → SameContext c c'
      → Refines c' h s
      → Refines c h s
  Refines-after c c' (ok (d, r)) (ok (m, r')) same k = (SameContext-trans same k.0, k.1, k.2)
  Refines-after c c' (ok _) (err _) same k = absurd k
  Refines-after c c' (ok _) panic same k = absurd k
  Refines-after c c' (err e) (err e') same k = k
  Refines-after c c' (err e) (ok _) same k = absurd k
  Refines-after c c' (err e) panic same k = absurd k
  Refines-after c c' panic panic same k = k
  Refines-after c c' panic (ok _) same k = absurd k
  Refines-after c c' panic (err _) same k = absurd k

  -- The next part of a handler runs in a context that is ready, on the entries that its batch shows.
  abbrev pub Continues :
      {R S : Type 0}
      → UpdateContext p
      → (UpdateContext p × R → Result (UpdateContext p × S))
      → (Entries × R → Result (Entries × S))
      → Type 0
  Continues {R} c f g =
      (c' : UpdateContext p) (r : R)
      → SameContext c c'
      → IsReady c'
      → Refines c' (f (c', r)) (g (view c'.batch, r))

  pub Refines-bind :
      {R S : Type 0} (c : UpdateContext p) (h : Result (UpdateContext p × R))
      (s : Result (Entries × R)) (f : UpdateContext p × R → Result (UpdateContext p × S))
      (g : Entries × R → Result (Entries × S))
      → Refines c h s
      → Continues c f g
      → Refines c (h >>= f) (s >>= g)
  Refines-bind c (ok (d, r)) (ok (m, r')) f g k l =
      let (same, shown, e) = k in
      let ready : IsReady d = same.ready ∙ sym same.same_db in
      rw (← shown, ← e) (Refines-after c d _ _ same (l d r same ready))
  Refines-bind c (ok _) (err _) f g k l = absurd k
  Refines-bind c (ok _) panic f g k l = absurd k
  Refines-bind c (err e) (err e') f g k l = k
  Refines-bind c (err e) (ok _) f g k l = absurd k
  Refines-bind c (err e) panic f g k l = absurd k
  Refines-bind c panic panic f g k l = tt
  Refines-bind c panic (ok _) f g k l = absurd k
  Refines-bind c panic (err _) f g k l = absurd k

  -- The responses that a handler makes of those of its last part, which may name the context.
  pub Refines-map :
      {R S : Type 0} (c : UpdateContext p) (h : Result (UpdateContext p × R))
      (s : Result (Entries × R)) (w : UpdateContext p → R → S) (w' : R → S)
      → ((c' : UpdateContext p) (r : R) → SameContext c c' → w c' r ≡ w' r)
      → Refines c h s
      → Refines c (h >>= λ (c', r). ok (c', w c' r)) (s >>= λ (m, r). ok (m, w' r))
  Refines-map c (ok (d, r)) (ok (m, r')) w w' e k = (k.0, k.1, e d r k.0 ∙ ap w' k.2)
  Refines-map c (ok _) (err _) w w' e k = absurd k
  Refines-map c (ok _) panic w w' e k = absurd k
  Refines-map c (err x) (err x') w w' e k = k
  Refines-map c (err x) (ok _) w w' e k = absurd k
  Refines-map c (err x) panic w w' e k = absurd k
  Refines-map c panic panic w w' e k = tt
  Refines-map c panic (ok _) w w' e k = absurd k
  Refines-map c panic (err _) w w' e k = absurd k

  -- EnsureIndexed makes the batch readable and keeps what it shows.
  pub ensure_indexed_lem :
      (c : UpdateContext p)
      → IsReady c
      → (c' : UpdateContext p) × (ensure_indexed p c ≡ ok c')
        × (p.indexed c'.batch ≡ true)
        × (view c'.batch ≡ view c.batch)
        × SameContext c c'
  unfolding ensure_indexed
  ensure_indexed_lem c h = elim (Bool-cases (p.indexed c.batch)) [
    | inl e ↦ (c, rw e, e, refl, SameContext-refl c h)
    | inr e ↦
        let (b, applied, shown, based, is_indexed) = laws.apply_lem c.batch in
        (
          record c { batch = b },
          rw (e, ← h, applied, laws.close_lem),
          is_indexed,
          shown,
          record {
            ready = based ∙ h;
            same_db = refl;
            same_index = refl;
            same_leader_index = refl;
            stays_indexed = λ _. is_indexed;
          },
        )
  ]
