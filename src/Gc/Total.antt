-- ===== src/Gc/Total.antt =====
-- lib/gc.c: `value_mark` and `activation_mark` return and mark what is reachable, by induction on the
-- fuel.
use bhuna.Prelude.{
  ℕ, zero, suc, refl, Option, none, some, List, [], ◌∷◌, ◌++◌, Bool-cases, inl, inr, ◌>>=◌,
}
use bhuna.Value.{Value, null, integer, boolean, atom, builtin, opaque, structured, Kind}
use bhuna.Memory.{SValue, Activation, Memory}
use bhuna.Gc.{value_mark, activation_mark, Root, mark_roots}
use bhuna.Gc.Graph.{Node, sv, ar, ref, refs, frame, payload_links, is_marked}
use bhuna.Gc.Marks.{Marks-stay}
use bhuna.Gc.Works.{
  Works, Works-nothing, Works-append, mark_all-Works, Works-one, marks_s_value, marks_activation,
  after_s_value, after_activation, links-s_value, links-activation, allocated-s_value,
  allocated-activation, after_s_value-Works, after_activation-Works,
}

-- The objects that the processes on the run list hold on to.
abbrev pub root_nodes : List Root → List Node
root_nodes [] = []
root_nodes (p ∷ ps) = (frame p.current_ar ++ refs p.vstack) ++ root_nodes ps

module _ (all : List Node) where
  -- With the objects that it links to marked one level down, a structured value is marked.
  structured-Works :
      (n : ℕ) (k : Kind) (p : ℕ)
      → ((s : SValue) → Works all n (after_s_value n s) (payload_links s.payload))
      → Works all (suc n) (value_mark (suc n) (structured k p)) (sv p ∷ [])
  unfolding value_mark Works after_s_value is_marked
  structured-Works n k p w m ready h lt =
      let (s, e) = allocated-s_value m p h.0 in
      elim (Bool-cases s.marked) [
        | inl old ↦ (m, rw (e, ◌>>=◌, old) refl, Marks-stay m (sv p ∷ []) (rw e old, tt))
        | inr new ↦
            let one = marks_s_value p s m e new in
            let (m', run, marks) =
              Works-one all n (sv p) m _ (after_s_value n s) ready h.0 one
                (rw (links-s_value m p s e) (w s)) lt in
            (m', rw (e, ◌>>=◌, new) run, marks)
      ]

  frame-Works :
      (n : ℕ) (a : ℕ)
      → ((r : Activation)
          → Works all n
              (after_activation n r)
              ((frame r.caller ++ frame r.enclosing) ++ refs r.values))
      → Works all (suc n) (activation_mark (suc n) (some a)) (ar a ∷ [])
  unfolding value_mark Works after_activation is_marked
  frame-Works n a w m ready h lt =
      let (r, e) = allocated-activation m a h.0 in
      elim (Bool-cases r.marked) [
        | inl old ↦ (m, rw (e, ◌>>=◌, old) refl, Marks-stay m (ar a ∷ []) (rw e old, tt))
        | inr new ↦
            let one = marks_activation a r m e new in
            let (m', run, marks) =
              Works-one all n (ar a) m _ (after_activation n r) ready h.0 one
                (rw (links-activation m a r e) (w r)) lt in
            (m', rw (e, ◌>>=◌, new) run, marks)
      ]

  Works-zero : (f : Memory → Option Memory) (ts : List Node) → Works all zero f ts
  unfolding Works
  Works-zero f ts m ready h lt = elim lt [ ]

  value_case :
      (n : ℕ)
      → ((s : SValue) → Works all n (after_s_value n s) (payload_links s.payload))
      → (v : Value) → Works all (suc n) (value_mark (suc n) v) (ref v)
  unfolding value_mark
  value_case n w (structured k p) = structured-Works n k p w
  value_case n w null = Works-nothing all (suc n)
  value_case n w (integer i) = Works-nothing all (suc n)
  value_case n w (boolean b) = Works-nothing all (suc n)
  value_case n w (atom a) = Works-nothing all (suc n)
  value_case n w (builtin b) = Works-nothing all (suc n)
  value_case n w (opaque q) = Works-nothing all (suc n)

  frame_case :
      (n : ℕ)
      → ((r : Activation)
          → Works all n
              (after_activation n r)
              ((frame r.caller ++ frame r.enclosing) ++ refs r.values))
      → (a : Option ℕ) → Works all (suc n) (activation_mark (suc n) a) (frame a)
  unfolding value_mark
  frame_case n w none = Works-nothing all (suc n)
  frame_case n w (some a) = frame-Works n a w

  -- Both marking functions at once: they recur on the same fuel.
  both-Works :
      (n : ℕ)
      → ((v : Value) → Works all n (value_mark n v) (ref v))
        × ((a : Option ℕ) → Works all n (activation_mark n a) (frame a))
  both-Works zero = (
    λ v. Works-zero (value_mark zero v) (ref v),
    λ a. Works-zero (activation_mark zero a) (frame a),
  )
  both-Works (suc n) =
      let (wv, wa) = both-Works n in
      (
        value_case n (λ s. after_s_value-Works all n s wv wa),
        frame_case n (λ r. after_activation-Works all n r wv wa),
      )

  -- Marking from the run list returns, given fuel for the unmarked objects, and marks what the run
  -- list reaches.
  pub mark_roots-Works : (n : ℕ) (ps : List Root) → Works all n (mark_roots n ps) (root_nodes ps)
  unfolding mark_roots
  mark_roots-Works n [] = Works-nothing all n
  mark_roots-Works n (p ∷ ps) =
      let (wv, wa) = both-Works n in
      Works-append all n _ (mark_roots n ps) (frame p.current_ar ++ refs p.vstack) (root_nodes ps)
        (Works-append all n _ _ (frame p.current_ar) (refs p.vstack) (wa p.current_ar)
          (mark_all-Works all n (value_mark n) wv p.vstack))
        (mark_roots-Works n ps)
