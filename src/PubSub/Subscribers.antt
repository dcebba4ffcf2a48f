-- ===== src/PubSub/Subscribers.antt =====
-- A subscriber from its subscription on.
use gritz.Prelude.{
  ℕ, ◌≤◌, ◌≡◌, refl, sym, ap, ◌∙◌, subst, Bool, true, false, List, [], ◌∷◌, ◌++◌, ◌==◌, length,
  arith, if◌then◌else◌,
}
use gritz.PubSub.{
  LocalPubSub, set, publish, new_channel, subscribe, delete, cancel, receive, Step, publishes,
  subscribes, cancels, receives, step, run, new_local_pub_sub,
}
use gritz.PubSub.Offers.{
  Thinned, heard, log, occurrences, IsSubscribed, occurrences-append, set_same,
}
use gritz.PubSub.Delivery.{run-Hears}

-- A channel that is not made yet is subscribed nowhere.
IsFresh : LocalPubSub → Type 0
IsFresh ps = (x org : ℕ) → ps.made ≤ x → occurrences x (ps.subs org) ≡ 0

occurrences-delete_le : (c d : ℕ) (xs : List ℕ) → occurrences c (delete d xs) ≤ occurrences c xs
unfolding occurrences delete
occurrences-delete_le c d [] = omega arith
occurrences-delete_le c d (x ∷ xs) = ground (arith, occurrences-delete_le c d xs)

cancel-IsFresh : (ch : ℕ) (ps : LocalPubSub) → IsFresh ps → IsFresh (cancel ch ps)
unfolding cancel IsFresh
cancel-IsFresh ch ps h = by_closed (ps.channels ch).closed
  where
    org : ℕ
    org = (ps.channels ch).org_id

    left : LocalPubSub
    left = record ps {
      subs = set org (delete ch (ps.subs org)) ps.subs;
      channels = set ch (record (ps.channels ch) { closed = true }) ps.channels;
    }

    by_closed : (b : Bool) → IsFresh (if b then ps else left)
    by_closed true = h
    by_closed false =
        λ x o m. ground (arith, h x o m, h x org m, occurrences-delete_le x ch (ps.subs org))

step-IsFresh : (s : Step) (ps : LocalPubSub) → IsFresh ps → IsFresh (step s ps)
unfolding step publish subscribe receive IsFresh
step-IsFresh (publishes n) ps h = h
step-IsFresh (subscribes o) ps h = λ x org m.
    ground
      (arith, h x org (omega arith), h x o (omega arith), occurrences-append x ps.made (ps.subs o))
step-IsFresh (cancels ch) ps h = cancel-IsFresh ch ps h
step-IsFresh (receives ch) ps h = h

run-IsFresh : (steps : List Step) (ps : LocalPubSub) → IsFresh ps → IsFresh (run steps ps)
unfolding run
run-IsFresh [] ps h = h
run-IsFresh (s ∷ steps) ps h = run-IsFresh steps (step s ps) (step-IsFresh s ps h)

subscribe-IsSubscribed :
    (org : ℕ) (ps : LocalPubSub) → IsFresh ps → IsSubscribed ps.made (subscribe org ps)
unfolding subscribe IsFresh
subscribe-IsSubscribed org ps h =
    let same = set_same ps.made (new_channel org) ps.channels in
    record {
      is_made = omega arith;
      own = λ o.
          subst
            (λ x.
              occurrences ps.made (set org (ps.subs org ++ ps.made ∷ []) ps.subs o)
              ≤ (if x.closed then 0 else if o == x.org_id then 1 else 0))
            (sym same)
            (ground (
              arith,
              h ps.made o (omega arith),
              h ps.made org (omega arith),
              occurrences-append ps.made ps.made (ps.subs org),
            ));
      within = subst (λ x. length x.buffer ≤ 64) (sym same) (omega arith);
    }

new_local_pub_sub-IsFresh : IsFresh new_local_pub_sub
unfolding IsFresh occurrences
new_local_pub_sub-IsFresh x org m = refl

-- What a subscriber has received, and then what is in its buffer, are notifications that were
-- published to its own organisation since it subscribed, in the order in which they were published:
-- some may be missing, and none is doubled or another organisation's. Its buffer never exceeds 64,
-- and once it is closed it is subscribed nowhere, so that nothing is sent on a closed channel. This
-- holds for any calls before and after the subscription.
pub subscriber-hears :
    (before : List Step) (org : ℕ) (after : List Step)
    → let ps = run before new_local_pub_sub in
      let ps' = run after (subscribe org ps) in
      Thinned (log (ps'.channels ps.made)) (heard org after) × IsSubscribed ps.made ps'
unfolding subscribe
subscriber-hears before org after =
    let ps = run before new_local_pub_sub in
    let fresh = run-IsFresh before new_local_pub_sub new_local_pub_sub-IsFresh in
    let same = set_same ps.made (new_channel org) ps.channels in
    let h = run-Hears ps.made (subscribe org ps) after (subscribe-IsSubscribed org ps fresh) in
    (
      subst (λ o. Thinned (log ((run after (subscribe org ps)).channels ps.made)) (heard o after))
          (ap (λ x. x.org_id) same)
          (subst (λ l. Thinned l (heard ((subscribe org ps).channels ps.made).org_id after))
            (sym (h.logged ∙ ap (λ x. log x ++ h.news) same)) h.thinned),
      h.subscribed,
    )
