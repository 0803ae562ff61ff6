-- ===== src/Redis/View.antt =====
-- What can be seen of a Redis server, and the documented effect of each command on it.
use message_broker_patterns.Base.{
  ℕ, ◌+◌, String, Bool, true, false, ◌&&◌, Option, none, some, List, [], ◌∷◌, ◌++◌, length, drop,
  str_eq, if◌then◌else◌,
}
use message_broker_patterns.Base.Dict.{Dict}

-- The flat text-to-text mapping of a stream entry.
abbrev pub Fields : Type 0
Fields = Dict String

-- A message id with its fields.
abbrev pub Entry : Type 0
Entry = String × Fields

pub record Server : Type 0 where
  -- the entries of a stream, oldest first
  pub entries : String → List Entry
  -- stream, group: how many entries the group has been given
  pub delivered : String → String → ℕ
  -- stream, group, id: the consumer that holds an unacknowledged message
  pub owner : String → String → String → Option String
  -- key, member
  pub members : String → String → Bool

abbrev pub id_of : String → List Entry → String
id_of first [] = first
id_of first ((id, f) ∷ es) = id_of id es

-- The id of the last entry, and "0" before all of them.
abbrev pub cursor : List Entry → String
cursor es = id_of "0" es

abbrev pub as_count : Bool → ℕ
as_count true = 1
as_count false = 0

abbrev pub with_entry : String → Entry → Server → Server
with_entry stream e v = record v {
  entries = λ t. if str_eq stream t then v.entries t ++ e ∷ [] else v.entries t;
}

-- A group is created at the start of the stream.
abbrev pub with_group : String → String → Server → Server
with_group stream group v = record v {
  delivered = λ t g. if str_eq stream t && str_eq group g then 0 else v.delivered t g;
}

-- What the group has not been given yet.
abbrev pub fresh_entries : String → String → Server → List Entry
fresh_entries stream group v = drop (v.delivered stream group) (v.entries stream)

abbrev has_id : String → List Entry → Bool
has_id id [] = false
has_id id ((j, f) ∷ es) = if str_eq j id then true else has_id id es

abbrev pub with_delivery : String → String → String → List Entry → Server → Server
with_delivery stream group consumer es v = record v {
  delivered = λ t g.
      if str_eq stream t && str_eq group g then v.delivered t g + length es else v.delivered t g;
  owner = λ t g id.
      if str_eq stream t && str_eq group g && has_id id es then some consumer else v.owner t g id;
}

abbrev is_held : Option String → String → Bool
is_held none consumer = false
is_held (some c) consumer = str_eq c consumer

abbrev held_by : (String → Option String) → String → List Entry → List Entry
held_by owner consumer [] = []
held_by owner consumer ((id, f) ∷ es) =
    let rest = held_by owner consumer es in
    if is_held (owner id) consumer then (id, f) ∷ rest else rest

-- The unacknowledged messages of one consumer, oldest first.
abbrev pub backlog : String → String → String → Server → List Entry
backlog stream group consumer v = held_by (v.owner stream group) consumer (v.entries stream)

abbrev pub with_ack : String → String → String → Server → Server
with_ack stream group id v = record v {
  owner = λ t g j. if str_eq stream t && str_eq group g && str_eq id j then none else v.owner t g j;
}

abbrev pub with_claim : String → String → String → List Entry → Server → Server
with_claim stream group consumer es v = record v {
  owner = λ t g id.
      if str_eq stream t && str_eq group g && has_id id es then some consumer else v.owner t g id;
}

abbrev pub with_member : String → String → Server → Server
with_member key member v = record v {
  members = λ k m. if str_eq key k && str_eq member m then true else v.members k m;
}
