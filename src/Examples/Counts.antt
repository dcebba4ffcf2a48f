-- ===== src/Examples/Counts.antt =====
-- The semaphore, the mute state and the router at concrete values.
use gritz.Prelude.{ℕ, ◌≡◌, refl, ◌≤◌, ◌<◌, ◌^◌, ◌↔◌, true, false, none, List, [], ◌∷◌, codes, arith}
use gritz.Prelude.Int.{pos}
use gritz.Semaphore.{Use, acquires, releases, use_all, new_semaphore, at, use_all-le}
use gritz.Router.{Condition, RoutingRule, InputEvent, OrgRules, rule_match, plan}
use gritz.TaskFilter.{
  Call, mutes, mutes_all, unmutes, new_task_filter, muted, make, make_all, means_all,
  make_all-means, add, delete, is_exception,
}
use gritz.Store.{Notification}
use gritz.PubSub.{Step, subscribes, publishes, cancels, receives, run, subscribe, new_local_pub_sub}
use gritz.PubSub.Offers.{Thinned, heard, log, IsSubscribed}
use gritz.PubSub.Subscribers.{subscriber-hears}
use gritz.Task.{unspecified}
use gritz.Router.Matching.{Matches, rule_match_iff}
use gritz.Router.Planning.{Plans, plan-Plans}

abbrev uses : List Use
uses = acquires 2 ∷ acquires 2 ∷ releases 5 ∷ acquires 3 ∷ []

uses_small : (2 < 2 ^ 62) × ((2 < 2 ^ 62) × ((5 < 2 ^ 62) × ((3 < 2 ^ 62) × Unit {0})))
uses_small = (omega arith, (omega arith, (omega arith, (omega arith, tt))))

use_all-le_example : (k : ℕ) × (use_all (new_semaphore (pos 3)) uses ≡ at 3 k) × (k ≤ 3)
use_all-le_example =
    use_all-le 3 uses (omega arith) uses_small ((λ e. e), ((λ e. e), ((λ e. e), ((λ e. e), tt))))

abbrev mention : Condition
mention = record { attr = codes "mention"; op = codes "equals"; value = codes "bot" }

abbrev rule : RoutingRule
rule = record {
  source = codes "github";
  type = [];
  conditions = mention ∷ [];
  create = none;
  wakeup = true;
  public = true;
  namespace = [];
}

abbrev event : InputEvent
event = record {
  source = codes "github";
  type = codes "issue";
  description = [];
  data_text = codes "hi";
  url = codes "https://github.com/a/b/issues/1";
  user_id = [];
  orgs = 1 ∷ [];
  attrs = (codes "mention", codes "x" ∷ codes "bot" ∷ []) ∷ [];
  details = [];
}

rule_match_iff_example : (rule_match rule event ≡ true) ↔ Matches rule event
rule_match_iff_example = rule_match_iff rule event

abbrev org : OrgRules
org = record { org_id = 1; is_member = false; rules = rule ∷ [] }

plan-Plans_example : Plans event (org ∷ []) (plan (org ∷ []) event)
plan-Plans_example = plan-Plans (org ∷ []) event

abbrev calls : List Call
calls = mutes 4 ∷ mutes_all ∷ unmutes 5 ∷ mutes 5 ∷ unmutes 4 ∷ []

make_all-means_example :
    muted (make_all calls new_task_filter) 4 ≡ means_all calls 4 (muted new_task_filter 4)
make_all-means_example = make_all-means calls new_task_filter 4

four_delivers : muted (make_all calls new_task_filter) 4 ≡ false
unfolding make_all make add delete is_exception
four_delivers = refl

abbrev note : ℕ → Notification
note org = record {
  type = codes "change";
  resources = [];
  org_id = org;
  user_id = [];
  client_id = [];
  runner = [];
  task_status = unspecified;
  channel_message = [];
  ignore = false;
}

abbrev before : List Step
before = subscribes 3 ∷ publishes (note 3) ∷ []

abbrev after : List Step
after = publishes (note 3) ∷ receives 1 ∷ publishes (note 4) ∷ cancels 1 ∷ publishes (note 3) ∷ []

subscriber-hears_example :
    let ps = run before new_local_pub_sub in
    let ps' = run after (subscribe 3 ps) in
    Thinned (log (ps'.channels ps.made)) (heard 3 after) × IsSubscribed ps.made ps'
subscriber-hears_example = subscriber-hears before 3 after
