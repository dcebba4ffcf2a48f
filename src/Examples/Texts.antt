-- ===== src/Examples/Texts.antt =====
-- Tries and redaction at concrete texts.
use gritz.Prelude.{
  ◌≡◌, ◌≢◌, refl, false, none, List, [], ◌∷◌, Bytes, codes, bytes_eq, bytes_eq_complete,
}
use gritz.Trie
use gritz.Trie.{Trie}
use gritz.Trie.Store.{get}
use gritz.Trie.Lookup.{Longest, lookup-Longest}
use gritz.Trie.Live.{IsLive, put-IsLive}
use gritz.Redact.{new_writer, flush, write_all, redact_string}
use gritz.Redact.Stream.{concat}
use gritz.Redact.Secrets.{Unique, MasksSecrets, stream-MasksSecrets}

abbrev ab : Trie Bytes
ab = Trie.put [] none (codes "ab") (codes "x")

ab-IsLive : IsLive ab
ab-IsLive = put-IsLive [] none (codes "ab") (codes "x") tt

lookup-Longest_example : Longest (get ab) (codes "abc") 0 0 [] (Trie.lookup [] ab (codes "abc"))
lookup-Longest_example = lookup-Longest [] ab (codes "abc")

abbrev secrets : List (Bytes × Bytes)
secrets = (codes "B", codes "s3") ∷ (codes "A", codes "s3") ∷ (codes "E", []) ∷ []

abbrev pieces : List Bytes
pieces = codes "a s" ∷ codes "3 b s" ∷ []

names_differ : (a b : Bytes) → bytes_eq a b ≡ false → a ≢ b
names_differ a b h e = cc (h, bytes_eq_complete a b e)

secrets_Unique : Unique secrets
unfolding bytes_eq
secrets_Unique =
    ((names_differ _ _ refl, (names_differ _ _ refl, tt)), ((names_differ _ _ refl, tt), (tt, tt)))

stream-MasksSecrets_example :
    let sent = (flush false (write_all pieces (new_writer secrets))).0.sent in
    MasksSecrets secrets (concat pieces) sent × (sent ≡ redact_string (concat pieces) secrets)
stream-MasksSecrets_example = stream-MasksSecrets secrets secrets_Unique pieces
