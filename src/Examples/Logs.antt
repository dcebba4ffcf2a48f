-- ===== src/Examples/Logs.antt =====
-- A log with one secret, shipped in chunks.
use gritz.Prelude.{suc, ◌≡◌, refl, true, List, [], ◌∷◌, Bytes, codes, bytes_eq, length, arith}
use gritz.Redact
use gritz.Trie
use gritz.Logship
use gritz.Redact.{
  redact_string, consume, scan, new_writer, put_names, sort_names, insert_name, secret_names,
  secret_value, marker,
}
use gritz.Redact.Stream.{concat}
use gritz.Logship.{
  Shipper, Step, new_shipper, flush_mask, run, writes, versions, begins, wakes, passes, cancels,
  delivered, permanent, transient, set_version, step, begun, passed, pass, cut,
}
use gritz.Logship.Order.{shipped, written, Fits, run-shipped}
use gritz.Logship.Progress.{Done, delivers}
use gritz.Logship.Sent.{Delivered, flush-Delivered}

abbrev secrets : List (Bytes × Bytes)
secrets = (codes "K", codes "abc") ∷ []

abbrev steps : List Step
steps =
    writes (codes "xxab")
    ∷ begins true
    ∷ passes (transient true)
    ∷ writes (codes "cy")
    ∷ passes permanent
    ∷ versions 2
    ∷ wakes
    ∷ passes delivered
    ∷ cancels
    ∷ []

steps_Fit : Fits steps (new_shipper 7 secrets 2 64)
unfolding new_shipper step set_version pass cut Logship.write Redact.write consume scan new_writer
    put_names sort_names insert_name secret_names secret_value bytes_eq Trie.lookup Trie.put
    Trie.walk Trie.find Trie.put_from Trie.set_child marker
steps_Fit = ground arith

run-shipped_example :
    shipped (flush_mask (run steps (new_shipper 7 secrets 2 64)))
    ≡ redact_string (concat (written steps)) secrets
run-shipped_example = run-shipped 7 secrets 2 64 steps steps_Fit

abbrev waiting : Shipper
waiting = record (new_shipper 7 [] 2 64) {
  mask = record (Redact.new_writer []) { sent = codes "abc" };
}

flush-Delivered_example :
    let s' = run (begins true ∷ delivers (suc (suc (length waiting.mask.sent)))) waiting in
    Done s' × Delivered waiting s'
unfolding new_shipper
flush-Delivered_example = flush-Delivered waiting (omega arith) refl
