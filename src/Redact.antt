-- ===== src/Redact.antt =====
-- Masking of secrets in a byte stream (internal/x/redact/redact.go). The underlying io.Writer is
-- the bytes that have reached it; `fails` says whether it refuses the call at hand. Secrets are an
-- association list from names to values, without repeated names.
pub mod Masking
pub mod Stream
pub mod Markers
pub mod Secrets
use gritz.Prelude.{
  ℕ, zero, suc, ◌-◌, Bool, true, false, not, ◌&&◌, Option, none, some, List, [], ◌∷◌, ◌++◌, reverse,
  Bytes, codes, bytes_eq, ◌==◌, ltb, if◌then◌else◌,
}
use gritz.Trie
use gritz.Trie.{Trie}

unfoldable pub marker : Bytes → Bytes
marker name = codes "[gritz:masked " ++ (name ++ codes "]")

pub record Writer : Type 0 where
  pub sent : Bytes
  pub markers : Trie Bytes
  pub held : Bytes

-- `strings` compare byte by byte.
unfoldable pub bytes_le : Bytes → Bytes → Bool
bytes_le [] b = true
bytes_le (x ∷ a) [] = false
bytes_le (x ∷ a) (y ∷ b) = if x == y then bytes_le a b else ltb x y

unfoldable pub insert_name : Bytes → List Bytes → List Bytes
insert_name n [] = n ∷ []
insert_name n (m ∷ names) = if bytes_le n m then n ∷ m ∷ names else m ∷ insert_name n names

-- `slices.Sort`
unfoldable pub sort_names : List Bytes → List Bytes
sort_names [] = []
sort_names (n ∷ names) = insert_name n (sort_names names)

-- The names whose value is not empty.
unfoldable pub secret_names : List (Bytes × Bytes) → List Bytes
secret_names [] = []
secret_names ((name, value) ∷ rest) =
    if not (bytes_eq value []) then name ∷ secret_names rest else secret_names rest

-- `secrets[name]`
unfoldable pub secret_value : List (Bytes × Bytes) → Bytes → Bytes
secret_value [] name = []
secret_value ((n, value) ∷ rest) name = if bytes_eq n name then value else secret_value rest name

-- The loop over `slices.Backward(names)`: the last name goes in first.
unfoldable pub put_names : List (Bytes × Bytes) → List Bytes → Trie Bytes
put_names secrets [] = none
put_names secrets (name ∷ names) =
    Trie.put [] (put_names secrets names) (secret_value secrets name) (marker name)

unfoldable pub new_writer : List (Bytes × Bytes) → Writer
new_writer secrets = record {
  sent = [];
  markers = put_names secrets (sort_names (secret_names secrets));
  held = [];
}

abbrev pub or_nil : Option Bytes → Bytes
or_nil none = []
or_nil (some out) = out

-- The loop of `consume` from `buf[i:]` on. `i += n` is a step to the next byte and `n - 1` more of
-- them; `run` is `buf[lit:i]`, and `out` is nil while nothing has matched. The result is what is
-- left of the buffer, the literal run and `out`.
unfoldable pub scan :
    Trie Bytes → Bool → Bytes → ℕ → Bytes → Option Bytes → Bytes × Bytes × Option Bytes
scan markers final [] skip run out = ([], run, out)
scan markers final (c ∷ rest) (suc skip) run out = scan markers final rest skip run out
scan markers final (c ∷ rest) zero run out =
    let (n, mark, partial) = Trie.lookup [] markers (c ∷ rest) in
    let literal = scan markers final rest 0 (run ++ c ∷ []) out in
    let masked = scan markers final rest (n - 1) [] (some ((or_nil out ++ run) ++ mark)) in
    if partial && not final then (c ∷ rest, run, out) else if n == 0 then literal else masked

abbrev pub emitted : Bytes × Option Bytes → Bytes
emitted (run, none) = run
emitted (run, some out) = out ++ run

-- The state after the write, and whether the underlying writer failed.
unfoldable pub consume : Bool → Bytes → Bool → Writer → Writer × Bool
consume fails p final w =
    let (rest, run, out) = scan w.markers final (w.held ++ p) 0 [] none in
    let emit = emitted (run, out) in
    if not (bytes_eq emit []) && fails
    then (record w { held = rest }, true)
    else (record w { sent = w.sent ++ emit; held = rest }, false)

unfoldable pub write : Bool → Bytes → Writer → Writer × Bool
write fails p w = consume fails p false w

unfoldable pub flush : Bool → Writer → Writer × Bool
flush fails w = consume fails [] true w

unfoldable pub write_all : List Bytes → Writer → Writer
write_all [] w = w
write_all (p ∷ ps) w = write_all ps (write false p w).0

-- `String`: a strings.Builder never fails.
unfoldable pub redact_string : Bytes → List (Bytes × Bytes) → Bytes
redact_string s secrets = (flush false (write false s (new_writer secrets)).0).0.sent
