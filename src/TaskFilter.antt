-- ===== src/TaskFilter.antt =====
-- The mute state of channel notifications (internal/mcpbridge/taskfilter.go). Every method holds the
-- mutex, so a use by several goroutines is a sequence of calls. The set is an ascending list.
use gritz.Prelude.{
  ℕ, ◌≡◌, refl, ap, ◌∙◌, Bool, true, false, not, List, [], ◌∷◌, ◌==◌, ltb, ◌||◌, arith,
  if◌then◌else◌,
}

pub record TaskFilter : Type 0 where
  pub all : Bool
  pub except : List ℕ

abbrev pub new_task_filter : TaskFilter
new_task_filter = record { all = false; except = [] }

unfoldable pub is_exception : ℕ → List ℕ → Bool
is_exception id [] = false
is_exception id (x ∷ xs) = (x == id) || is_exception id xs

unfoldable pub add : ℕ → List ℕ → List ℕ
add id [] = id ∷ []
add id (x ∷ xs) =
    let rest = add id xs in if x == id then x ∷ xs else if ltb id x then id ∷ x ∷ xs else x ∷ rest

unfoldable pub delete : ℕ → List ℕ → List ℕ
delete id [] = []
delete id (x ∷ xs) = let rest = delete id xs in if x == id then rest else x ∷ rest

abbrev pub mute : ℕ → TaskFilter → TaskFilter
mute id f =
    if f.all
    then record f { except = delete id f.except }
    else record f { except = add id f.except }

abbrev pub mute_all : TaskFilter → TaskFilter
mute_all f = record { all = true; except = [] }

abbrev pub unmute : ℕ → TaskFilter → TaskFilter
unmute id f =
    if f.all
    then record f { except = add id f.except }
    else record f { except = delete id f.except }

abbrev pub clear : TaskFilter → TaskFilter
clear f = record { all = false; except = [] }

abbrev pub muted : TaskFilter → ℕ → Bool
muted f id = if f.all then not (is_exception id f.except) else is_exception id f.except

-- The calls of a client.
pub data Call : Type 0 where
  mutes unmutes : ℕ → Call
  mutes_all clears : Call

unfoldable pub make : Call → TaskFilter → TaskFilter
make (mutes id) f = mute id f
make (unmutes id) f = unmute id f
make mutes_all f = mute_all f
make clears f = clear f

unfoldable pub make_all : List Call → TaskFilter → TaskFilter
make_all [] f = f
make_all (c ∷ calls) f = make_all calls (make c f)

-- What a client means: each call sets whether a task is muted, for one task or for all.
abbrev pub means : Call → ℕ → Bool → Bool
means (mutes x) id before = if x == id then true else before
means (unmutes x) id before = if x == id then false else before
means mutes_all id before = true
means clears id before = false

abbrev pub means_all : List Call → ℕ → Bool → Bool
means_all [] id before = before
means_all (c ∷ calls) id before = means_all calls id (means c id before)

is_exception-add :
    (x id : ℕ) (xs : List ℕ)
    → is_exception id (add x xs) ≡ (if x == id then true else is_exception id xs)
unfolding is_exception add
is_exception-add x id [] = ground arith
is_exception-add x id (y ∷ ys) = ground (arith, is_exception-add x id ys)

is_exception-delete :
    (x id : ℕ) (xs : List ℕ)
    → is_exception id (delete x xs) ≡ (if x == id then false else is_exception id xs)
unfolding is_exception delete
is_exception-delete x id [] = ground arith
is_exception-delete x id (y ∷ ys) = ground (arith, is_exception-delete x id ys)

make-means : (c : Call) (f : TaskFilter) (id : ℕ) → muted (make c f) id ≡ means c id (muted f id)
unfolding make is_exception
make-means (mutes x) f id =
    ground (arith, is_exception-add x id f.except, is_exception-delete x id f.except)
make-means (unmutes x) f id =
    ground (arith, is_exception-add x id f.except, is_exception-delete x id f.except)
make-means mutes_all f id = refl
make-means clears f id = refl

-- After any sequence of calls a task is muted exactly as if each task had its own flag that a call
-- sets, for its task or for all: the block list and the allow list that the filter keeps instead
-- cannot be told from that.
pub make_all-means :
    (calls : List Call) (f : TaskFilter) (id : ℕ)
    → muted (make_all calls f) id ≡ means_all calls id (muted f id)
unfolding make_all
make_all-means [] f id = refl
make_all-means (c ∷ calls) f id =
    make_all-means calls (make c f) id ∙ ap (means_all calls id) (make-means c f id)
