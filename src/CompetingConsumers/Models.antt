-- ===== src/CompetingConsumers/Models.antt =====
-- competing_consumers_pattern/models.py: a task and its flat text form.
use message_broker_patterns.Base.{String, ◌≡◌, refl, Option, none, some, [], ◌∷◌}
use message_broker_patterns.Base.Dict.{lookup}
use message_broker_patterns.Base.Exec.{Result, ok, err, key_error}
use message_broker_patterns.Redis.View.{Fields}

pub record Task : Type 0 where
  pub task_id : String
  pub payload : String

unfoldable pub to_fields : Task → Fields
to_fields t = ("task_id", t.task_id) ∷ ("payload", t.payload) ∷ []

task_of : Option String → Option String → Result Task
task_of (some id) (some payload) = ok (record { task_id = id; payload = payload })
task_of (some id) none = err key_error
task_of none payload = err key_error

unfoldable pub from_fields : Fields → Result Task
unfolding task_of
from_fields fields = task_of (lookup "task_id" fields) (lookup "payload" fields)

-- A task read back from its own fields is the same task.
pub from_fields-to_fields : (t : Task) → from_fields (to_fields t) ≡ ok t
unfolding from_fields to_fields task_of
from_fields-to_fields t = refl
