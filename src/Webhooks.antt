-- ===== src/Webhooks.antt =====
-- src/mock_idp/webhooks.py: which requests an event causes. Delivery failures are swallowed there, so
-- that a request is recorded here when it is made.
use mock_idp.Common.{String, List, [], ◌∷◌, ◌++◌, map, elem, if◌then◌else◌}
use mock_idp.Dict.{update}
use mock_idp.Value.{str, Claims}
use mock_idp.Models.{WebhookConfig}
use mock_idp.World.{Action, modify}

-- `[h for h in WEBHOOKS if event in h.events]`
unfoldable pub matching : String → List WebhookConfig → List WebhookConfig
matching event [] = []
matching event (h ∷ hooks) =
    if elem event h.events then h ∷ matching event hooks else matching event hooks

-- the body of every request of an event
abbrev pub body : String → String → Claims → Claims
body event timestamp payload =
    update (("event", str event) ∷ ("timestamp", str timestamp) ∷ []) payload

unfoldable pub fire_webhooks : List WebhookConfig → String → String → Claims → Action (Unit {0})
unfolding matching update
fire_webhooks webhooks timestamp event payload = modify (λ w. record w {
  posts = w.posts ++ map (λ h. (h.url, body event timestamp payload)) (matching event webhooks);
})
