-- ===== src/Scope/Matching.antt =====
-- Allow as a relation between the held scopes and a request.
use gritz.Prelude.{
  ◌≡◌, ◌↔◌, ◌⊎◌, inl, inr, refl, true, some, List, [], ◌∷◌, Bytes, bytes_eq_iff, bytes_eq_refl,
  arith, Bool-cases, Option-cases,
}
use gritz.Scope.{
  Attr, Scope, Scopes, star, attr_value, covers, scope_allow_op, preds_hold, scope_allow, allow,
  allow_op,
}

-- A pattern covers a path of as many segments, each the same or under the wildcard.
abbrev pub Covers : List Bytes → List Bytes → Type 0
Covers [] [] = Unit {0}
Covers (seg ∷ segs) (o ∷ os) = ((seg ≡ star) ⊎ (seg ≡ o)) × Covers segs os
Covers _ _ = ⊥

-- Each predicate finds its value among the attributes of the request.
abbrev pub Satisfies : List Attr → List (Bytes × Bytes) → Type 0
Satisfies attrs [] = Unit {0}
Satisfies attrs ((key, want) ∷ rest) = (attr_value attrs key ≡ some want) × Satisfies attrs rest

-- Some held scope covers the path and has its predicates satisfied.
abbrev pub Permits : Scopes → List Bytes → List Attr → Type 0
Permits [] op attrs = ⊥
Permits (s ∷ scopes) op attrs = (Covers s.op op × Satisfies attrs s.preds) ⊎ Permits scopes op attrs

covers_sound : (segs op : List Bytes) → covers segs op ≡ true → Covers segs op
unfolding covers
covers_sound [] [] h = tt
covers_sound (seg ∷ segs) (o ∷ os) h =
    ground (arith, bytes_eq_iff seg star, bytes_eq_iff seg o, covers_sound segs os)
covers_sound [] (o ∷ os) h = cc
covers_sound (seg ∷ segs) [] h = cc

covers_complete : (segs op : List Bytes) → Covers segs op → covers segs op ≡ true
unfolding covers
covers_complete [] [] h = refl
covers_complete (seg ∷ segs) (o ∷ os) h =
    ground (arith, bytes_eq_iff seg star, bytes_eq_iff seg o, covers_complete segs os h.1)
covers_complete [] (o ∷ os) h = absurd h
covers_complete (seg ∷ segs) [] h = absurd h

preds_hold_sound :
    (preds : List (Bytes × Bytes)) (attrs : List Attr)
    → preds_hold preds attrs ≡ true
    → Satisfies attrs preds
unfolding preds_hold
preds_hold_sound [] attrs h = tt
preds_hold_sound ((key, want) ∷ rest) attrs h = elim (Option-cases (attr_value attrs key)) [
  | inl e ↦ absurd (cc (rw (e, preds_hold) at h))
  | inr (got, e) ↦ ground (arith, bytes_eq_iff got want, preds_hold_sound rest attrs)
]

preds_hold_complete :
    (preds : List (Bytes × Bytes)) (attrs : List Attr)
    → Satisfies attrs preds
    → preds_hold preds attrs ≡ true
unfolding preds_hold
preds_hold_complete [] attrs h = refl
preds_hold_complete ((key, want) ∷ rest) attrs h =
    rw (h.0, preds_hold) (rw (bytes_eq_refl want) (preds_hold_complete rest attrs h.1))

scope_allow_sound :
    (s : Scope) (op : List Bytes) (attrs : List Attr)
    → scope_allow s op attrs ≡ true
    → Covers s.op op × Satisfies attrs s.preds
unfolding scope_allow scope_allow_op
scope_allow_sound s op attrs h =
    ground (arith, covers_sound s.op op, preds_hold_sound s.preds attrs)

scope_allow_complete :
    (s : Scope) (op : List Bytes) (attrs : List Attr)
    → Covers s.op op
    → Satisfies attrs s.preds
    → scope_allow s op attrs ≡ true
unfolding scope_allow scope_allow_op
scope_allow_complete s op attrs c p =
    rw (covers_complete s.op op c) (preds_hold_complete s.preds attrs p)

allow_sound :
    (scopes : Scopes) (op : List Bytes) (attrs : List Attr)
    → allow scopes op attrs ≡ true
    → Permits scopes op attrs
unfolding allow
allow_sound [] op attrs h = absurd (cc)
allow_sound (s ∷ scopes) op attrs h = elim (Bool-cases (scope_allow s op attrs)) [
  | inl hit ↦ inl (scope_allow_sound s op attrs hit)
  | inr miss ↦ inr (allow_sound scopes op attrs (rw (miss, allow) at h))
]

allow_complete :
    (scopes : Scopes) (op : List Bytes) (attrs : List Attr)
    → Permits scopes op attrs
    → allow scopes op attrs ≡ true
unfolding allow
allow_complete [] op attrs h = absurd h
allow_complete (s ∷ scopes) op attrs (inl h) = rw (scope_allow_complete s op attrs h.0 h.1)
allow_complete (s ∷ scopes) op attrs (inr h) = ground (arith, allow_complete scopes op attrs h)

-- Allow holds of a request exactly when some held scope has a pattern of as many segments, each
-- equal or the wildcard, and every predicate of it finds its value as the first attribute of its
-- name.
pub allow_iff :
    (scopes : Scopes) (op : List Bytes) (attrs : List Attr)
    → (allow scopes op attrs ≡ true) ↔ Permits scopes op attrs
allow_iff scopes op attrs = (allow_sound scopes op attrs, allow_complete scopes op attrs)

-- What Allow grants, the coarse gate AllowOp lets through: a handler that asks AllowOp first turns
-- no caller away whom Allow would let in.
allow_op-allow :
    (scopes : Scopes) (op : List Bytes) (attrs : List Attr)
    → allow scopes op attrs ≡ true
    → allow_op scopes op ≡ true
unfolding allow allow_op scope_allow
allow_op-allow [] op attrs h = cc
allow_op-allow (s ∷ scopes) op attrs h = ground (arith, allow_op-allow scopes op attrs)
