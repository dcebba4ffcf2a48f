-- ===== src/PubSub/Delivery.antt =====
-- What a subscriber hears.
use gritz.Prelude.{
  ℕ, ◌≤◌, ◌<◌, ◌≡◌, ◌≢◌, refl, sym, ap, ◌∙◌, subst, Bool, true, false, List, [], ◌∷◌, ◌++◌, ◌==◌,
  ltb, length, length-append, ◌⊎◌, inl, inr, arith, if◌then◌else◌, Bool-cases,
}
use native.Mathlib.Decide.{ℕ_discrete}
use mathlib.Core.List.{append-nil, append_assoc}
use gritz.Store.{Notification}
use gritz.PubSub.{
  Channel, LocalPubSub, set, offer, publish, new_channel, subscribe, delete, cancel, taken_from,
  receive, Step, publishes, subscribes, cancels, receives, step, run,
}
use gritz.PubSub.Offers.{
  Thinned, none_left, kept, dropped, heard, log, occurrences, IsSubscribed, occurrences-append,
  occurrences-delete, occurrences-delete_other, set_other, set_same, not_offered, offered_once,
}

abbrev at_most : Channel → ℕ → ℕ
at_most x org = if x.closed then 0 else if org == x.org_id then 1 else 0

-- What a step or more leads to, of all that was published to the organisation meanwhile.
pub record Hears (c : ℕ) (ps ps' : LocalPubSub) (published : List Notification) : Type 0 where
  pub news : List Notification
  pub thinned : Thinned news published
  pub logged : log (ps'.channels c) ≡ log (ps.channels c) ++ news
  pub same_org : (ps'.channels c).org_id ≡ (ps.channels c).org_id
  pub subscribed : IsSubscribed c ps'

dropped_all {ℓ} : {A : Type ℓ} (ys : List A) → Thinned [] ys
dropped_all [] = none_left
dropped_all (y ∷ ys) = dropped (dropped_all ys)

module _ (c : ℕ) (ps : LocalPubSub) (h : IsSubscribed c ps) where
  -- By what the channel is afterwards.
  became :
      (ps' : LocalPubSub) (x : Channel) (news published : List Notification)
      → ps'.channels c ≡ x
      → c < ps'.made
      → ((org : ℕ) → occurrences c (ps'.subs org) ≤ at_most x org)
      → length x.buffer ≤ 64
      → Thinned news published
      → log x ≡ log (ps.channels c) ++ news
      → x.org_id ≡ (ps.channels c).org_id
      → Hears c ps ps' published
  became ps' x news published e m own within t l o = record {
    news = news;
    thinned = t;
    logged = ap log e ∙ l;
    same_org = ap (λ y. y.org_id) e ∙ o;
    subscribed = record {
      is_made = m;
      own = λ org. subst (λ y. occurrences c (ps'.subs org) ≤ at_most y org) (sym e) (own org);
      within = subst (λ y. length y.buffer ≤ 64) (sym e) within;
    };
  }

  -- The channel is as it was.
  unchanged :
      (ps' : LocalPubSub) (published : List Notification)
      → ps'.channels c ≡ ps.channels c
      → c < ps'.made
      → ((org : ℕ) → occurrences c (ps'.subs org) ≤ at_most (ps.channels c) org)
      → Hears c ps ps' published
  unchanged ps' published e m own =
      became ps' (ps.channels c) [] published e m own h.within (dropped_all published)
        (sym (append-nil (log (ps.channels c)))) refl

  offered-Hears :
      (n : Notification) (published : List Notification) (ps' : LocalPubSub)
      → ps'.channels c ≡ offer n (ps.channels c)
      → c < ps'.made
      → ((org : ℕ) → occurrences c (ps'.subs org) ≤ at_most (ps.channels c) org)
      → Thinned (n ∷ []) published
      → Hears c ps ps' published
  offered-Hears n published ps' e m own t = by_room (ltb (length (ps.channels c).buffer) 64) refl e
    where
      x : Channel
      x = ps.channels c

      more : Channel
      more = record x { buffer = x.buffer ++ n ∷ [] }

      by_room :
          (b : Bool)
          → ltb (length x.buffer) 64 ≡ b
          → ps'.channels c ≡ (if b then more else x)
          → Hears c ps ps' published
      by_room true r e =
          became ps' more (n ∷ []) published e m own
            (ground (arith, length-append x.buffer (n ∷ []))) t
            (sym (append_assoc x.received x.buffer (n ∷ []))) refl
      by_room false r e = unchanged ps' published e m own

  publish-Hears :
      (n : Notification)
      → Hears c ps (publish n ps) (if n.org_id == (ps.channels c).org_id then n ∷ [] else [])
  unfolding publish
  publish-Hears n = elim (ℕ_discrete (occurrences c (ps.subs n.org_id)) 0) [
    | yes e ↦
        unchanged (publish n ps) _ (not_offered n c (ps.subs n.org_id) ps.channels e) h.is_made
          h.own
    | no d ↦
        offered-Hears n _ (publish n ps)
          (offered_once n c (ps.subs n.org_id) ps.channels (ground (arith, h.own n.org_id)))
          h.is_made h.own (to_own (Bool-cases (n.org_id == (ps.channels c).org_id)) d)
  ]
    where
      own_org : Bool
      own_org = n.org_id == (ps.channels c).org_id

      to_own :
          ((own_org ≡ true) ⊎ (own_org ≡ false))
          → occurrences c (ps.subs n.org_id) ≢ 0
          → Thinned (n ∷ []) (if own_org then n ∷ [] else [])
      to_own (inl e) d =
          subst (λ b. Thinned (n ∷ []) (if b then n ∷ [] else [])) (sym e) (kept none_left)
      to_own (inr e) d = absurd (ground (arith, h.own n.org_id))

  subscribe-Hears : (org : ℕ) → Hears c ps (subscribe org ps) []
  unfolding subscribe
  subscribe-Hears org =
      unchanged (subscribe org ps) []
        (set_other ps.made c (new_channel org) ps.channels (λ e. omega (arith, h.is_made)))
        (omega (arith, h.is_made))
        (λ o.
          ground (arith, h.own o, h.own org, h.is_made, occurrences-append c ps.made (ps.subs org)))

  cancel_open :
      (ch : ℕ)
      → (ps.channels ch).closed ≡ false
      → (ps' : LocalPubSub)
      → ps' ≡ record ps {
        subs = set (ps.channels ch).org_id (delete ch (ps.subs (ps.channels ch).org_id)) ps.subs;
        channels = set ch (record (ps.channels ch) { closed = true }) ps.channels;
      }
      → Hears c ps ps' []
  cancel_open ch still ps' e =
      subst (λ p. Hears c ps p []) (sym e)
        (elim (ℕ_discrete ch c) [
          | yes y ↦ subst (λ k. Hears c ps (without k) []) (sym y) own_closed
          | no n ↦
              unchanged (without ch) []
                (set_other ch c (record (ps.channels ch) { closed = true }) ps.channels n) h.is_made
                (λ o. ground (
                  arith,
                  h.own o,
                  occurrences-delete_other c ch (ps.subs (ps.channels ch).org_id) n,
                ))
        ])
    where
      without : ℕ → LocalPubSub
      without k = record ps {
        subs = set (ps.channels k).org_id (delete k (ps.subs (ps.channels k).org_id)) ps.subs;
        channels = set k (record (ps.channels k) { closed = true }) ps.channels;
      }

      own_closed : Hears c ps (without c) []
      own_closed =
          became (without c) (record (ps.channels c) { closed = true }) [] []
            (set_same c (record (ps.channels c) { closed = true }) ps.channels) h.is_made
            (λ o. ground (arith, h.own o, occurrences-delete c (ps.subs (ps.channels c).org_id)))
            h.within none_left (sym (append-nil (log (ps.channels c)))) refl

  cancel-Hears : (ch : ℕ) → Hears c ps (cancel ch ps) []
  unfolding cancel
  cancel-Hears ch = by_closed (ps.channels ch).closed refl
    where
      left : LocalPubSub
      left = record ps {
        subs = set (ps.channels ch).org_id (delete ch (ps.subs (ps.channels ch).org_id)) ps.subs;
        channels = set ch (record (ps.channels ch) { closed = true }) ps.channels;
      }

      by_closed : (b : Bool) → (ps.channels ch).closed ≡ b → Hears c ps (if b then ps else left) []
      by_closed true e = unchanged ps [] refl h.is_made h.own
      by_closed false e = cancel_open ch e left refl

  receive-Hears : (ch : ℕ) → Hears c ps (receive ch ps) []
  unfolding receive
  receive-Hears ch = elim (ℕ_discrete ch c) [
    | yes y ↦ subst (λ k. Hears c ps (after k) []) (sym y) (own_taken (ps.channels c).buffer refl)
    | no n ↦
        unchanged (after ch) []
          (set_other ch c (taken_from (ps.channels ch) (ps.channels ch).buffer) ps.channels n)
          h.is_made h.own
  ]
    where
      after : ℕ → LocalPubSub
      after k = record ps {
        channels = set k (taken_from (ps.channels k) (ps.channels k).buffer) ps.channels;
      }

      own_taken : (ns : List Notification) → (ps.channels c).buffer ≡ ns → Hears c ps (after c) []
      own_taken [] e =
          unchanged (after c) []
            (set_same c (taken_from (ps.channels c) (ps.channels c).buffer) ps.channels
              ∙ ap (taken_from (ps.channels c)) e)
            h.is_made h.own
      own_taken (n ∷ ns) e =
          became (after c) (taken_from (ps.channels c) (n ∷ ns)) [] []
            (set_same c (taken_from (ps.channels c) (ps.channels c).buffer) ps.channels
              ∙ ap (taken_from (ps.channels c)) e)
            h.is_made h.own (ground (arith, ap length e, h.within)) none_left
            (append_assoc (ps.channels c).received (n ∷ []) ns
              ∙ ap (λ l. (ps.channels c).received ++ l) (sym e)
              ∙ sym (append-nil (log (ps.channels c))))
            refl

  -- What a step publishes to the organisation of the channel.
  step-Hears : (s : Step) → Hears c ps (step s ps) (heard (ps.channels c).org_id (s ∷ []))
  unfolding step
  step-Hears (publishes n) =
      subst (Hears c ps (publish n ps)) (sym (append-nil _)) (publish-Hears n)
  step-Hears (subscribes org) = subscribe-Hears org
  step-Hears (cancels ch) = cancel-Hears ch
  step-Hears (receives ch) = receive-Hears ch

Thinned-append {ℓ} :
    {A : Type ℓ} {xs ys us vs : List A}
    → Thinned xs ys
    → Thinned us vs
    → Thinned (xs ++ us) (ys ++ vs)
Thinned-append none_left k = k
Thinned-append (kept h) k = kept (Thinned-append h k)
Thinned-append (dropped h) k = dropped (Thinned-append h k)

heard-cons :
    (org : ℕ) (s : Step) (steps : List Step)
    → heard org (s ∷ []) ++ heard org steps ≡ heard org (s ∷ steps)
heard-cons org (publishes n) steps =
    ap (λ l. l ++ heard org steps) (append-nil (if n.org_id == org then n ∷ [] else []))
heard-cons org (subscribes o) steps = refl
heard-cons org (cancels ch) steps = refl
heard-cons org (receives ch) steps = refl

Hears-trans :
    (c : ℕ) (ps ps' ps'' : LocalPubSub) (p q : List Notification)
    → Hears c ps ps' p
    → Hears c ps' ps'' q
    → Hears c ps ps'' (p ++ q)
Hears-trans c ps ps' ps'' p q h k = record {
  news = h.news ++ k.news;
  thinned = Thinned-append h.thinned k.thinned;
  logged =
      k.logged ∙ ap (λ l. l ++ k.news) h.logged ∙ append_assoc (log (ps.channels c)) h.news k.news;
  same_org = k.same_org ∙ h.same_org;
  subscribed = k.subscribed;
}

-- Over any calls, a channel that is subscribed hears what is published to its organisation.
pub run-Hears :
    (c : ℕ) (ps : LocalPubSub) (steps : List Step)
    → IsSubscribed c ps
    → Hears c ps (run steps ps) (heard (ps.channels c).org_id steps)
unfolding run
run-Hears c ps [] h = unchanged c ps h ps [] refl h.is_made h.own
run-Hears c ps (s ∷ steps) h =
    let first = step-Hears c ps h s in
    subst (Hears c ps (run steps (step s ps))) (heard-cons (ps.channels c).org_id s steps) (
      Hears-trans c ps (step s ps) (run steps (step s ps)) (heard (ps.channels c).org_id (s ∷ []))
        (heard (ps.channels c).org_id steps) first
        (subst (λ org. Hears c (step s ps) (run steps (step s ps)) (heard org steps)) first.same_org
          (run-Hears c (step s ps) steps first.subscribed)))
