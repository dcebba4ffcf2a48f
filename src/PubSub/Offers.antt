-- ===== src/PubSub/Offers.antt =====
-- What a publication offers to a channel, and how often a channel is subscribed.
use gritz.Prelude.{
  ℕ, ◌+◌, ◌≤◌, ◌<◌, ◌≡◌, ◌≢◌, refl, sym, ap, ◌∙◌, subst, List, [], ◌∷◌, ◌++◌, ◌==◌, length, arith,
  if◌then◌else◌,
}
use native.Mathlib.Decide.{ℕ_discrete}
use gritz.Store.{Notification}
use gritz.PubSub.{
  Channel, LocalPubSub, set, offer, offer_each, delete, Step, publishes, subscribes, cancels,
  receives,
}

-- The first list is the second without some of its elements.
pub data Thinned {ℓ} {A : Type ℓ} : List A → List A → Type ℓ where
  none_left : Thinned [] []
  kept : {x : A} {xs ys : List A} → Thinned xs ys → Thinned (x ∷ xs) (x ∷ ys)
  dropped : {y : A} {xs ys : List A} → Thinned xs ys → Thinned xs (y ∷ ys)

-- What is published for an organisation.
abbrev pub heard : ℕ → List Step → List Notification
heard org [] = []
heard org (publishes n ∷ steps) = (if n.org_id == org then n ∷ [] else []) ++ heard org steps
heard org (subscribes o ∷ steps) = heard org steps
heard org (cancels ch ∷ steps) = heard org steps
heard org (receives ch ∷ steps) = heard org steps

abbrev pub log : Channel → List Notification
log c = c.received ++ c.buffer

unfoldable pub occurrences : ℕ → List ℕ → ℕ
occurrences c [] = 0
occurrences c (x ∷ xs) = (if x == c then 1 else 0) + occurrences c xs

-- The channel was made, is subscribed at most once, to its own organisation only and not once it is
-- closed, and its buffer is within its size.
pub record IsSubscribed (c : ℕ) (ps : LocalPubSub) : Type 0 where
  pub is_made : c < ps.made
  pub own :
      (org : ℕ)
      → occurrences c (ps.subs org)
        ≤ (if (ps.channels c).closed then 0 else if org == (ps.channels c).org_id then 1 else 0)
  pub within : length (ps.channels c).buffer ≤ 64

pub occurrences-append :
    (c d : ℕ) (xs : List ℕ)
    → occurrences c (xs ++ d ∷ []) ≡ occurrences c xs + (if d == c then 1 else 0)
unfolding occurrences
occurrences-append c d [] = omega arith
occurrences-append c d (x ∷ xs) = omega (arith, occurrences-append c d xs)

pub occurrences-delete : (c : ℕ) (xs : List ℕ) → occurrences c (delete c xs) ≡ 0
unfolding occurrences delete
occurrences-delete c [] = refl
occurrences-delete c (x ∷ xs) = ground (arith, occurrences-delete c xs)

pub occurrences-delete_other :
    (c d : ℕ) (xs : List ℕ) → d ≢ c → occurrences c (delete d xs) ≡ occurrences c xs
unfolding occurrences delete
occurrences-delete_other c d [] h = refl
occurrences-delete_other c d (x ∷ xs) h = ground (arith, occurrences-delete_other c d xs h)

pub set_other {ℓ} : {A : Type ℓ} (k x : ℕ) (a : A) (f : ℕ → A) → k ≢ x → set k a f x ≡ f x
set_other k x a f h = ground arith

pub set_same {ℓ} : {A : Type ℓ} (k : ℕ) (a : A) (f : ℕ → A) → set k a f k ≡ a
set_same k a f = ground arith

module _ (n : Notification) (c : ℕ) where
  pub not_offered :
      (ids : List ℕ) (channels : ℕ → Channel)
      → occurrences c ids ≡ 0
      → offer_each n ids channels c ≡ channels c
  unfolding occurrences offer_each
  not_offered [] channels h = refl
  not_offered (x ∷ ids) channels h = elim (ℕ_discrete x c) [
    | yes e ↦ absurd (ground arith)
    | no d ↦
        not_offered ids (set x (offer n (channels x)) channels) (ground arith)
        ∙ set_other x c (offer n (channels x)) channels d
  ]

  pub offered_once :
      (ids : List ℕ) (channels : ℕ → Channel)
      → occurrences c ids ≡ 1
      → offer_each n ids channels c ≡ offer n (channels c)
  unfolding occurrences offer_each
  offered_once [] channels h = ground arith
  offered_once (x ∷ ids) channels h = elim (ℕ_discrete x c) [
    | yes e ↦
        not_offered ids (set x (offer n (channels x)) channels) (ground arith)
        ∙ subst (λ y. set y (offer n (channels y)) channels c ≡ offer n (channels c)) (sym e)
            (set_same c (offer n (channels c)) channels)
    | no d ↦
        offered_once ids (set x (offer n (channels x)) channels) (ground arith)
        ∙ ap (offer n) (set_other x c (offer n (channels x)) channels d)
  ]
