-- ===== src/Redis/Instance.antt =====
-- The server in memory as a `Redis` that obeys its laws.
use message_broker_patterns.Base.{String, ◌≡◌, refl, true, false, [], length, take, Bool}
use message_broker_patterns.Base.Exec.{Returns, ok, err, response_error}
use message_broker_patterns.Redis.{Redis, Laws, IsUp}
use message_broker_patterns.Redis.View.{with_group, backlog, as_count}
use message_broker_patterns.Redis.Memory
use message_broker_patterns.Redis.Memory.{Mem}

abbrev pub memory : Redis
memory = record {
  State = Mem;
  view = Memory.view;
  xadd = Memory.xadd;
  xread = Memory.xread;
  xlen = λ stream m. (ok (length (m.streams stream)), m);
  xgroup_create = Memory.xgroup_create;
  xreadgroup_new = Memory.xreadgroup_new;
  xreadgroup_pending =
      λ stream group consumer n m. (ok (take n (backlog stream group consumer (Memory.view m))), m);
  xack = Memory.xack;
  xautoclaim = λ stream group consumer idle n m. (ok [], m);
  xpending = λ stream group m. (ok 0, m);
  sadd = Memory.sadd;
  sismember = λ key member m. (ok (as_count (m.members key member)), m);
}

created :
    (b : Bool) (stream group : String) (m : Mem)
    → Returns
        (Memory.create b stream group m)
        (λ _ m'. Memory.view m' ≡ with_group stream group (Memory.view m))
created true stream group m = tt
created false stream group m = refl

refused :
    (b : Bool) (stream group text : String) (m : Mem)
    → (Memory.create b stream group m).0 ≡ err (response_error text)
    → Memory.view (Memory.create b stream group m).1 ≡ Memory.view m
refused true stream group text m h = refl
refused false stream group text m h = cc h

pub memory_laws : Laws memory
memory_laws = record {
  xadd_lem = Memory.view-xadd;
  xadd_raised = λ stream f m. tt;
  xread_lem = λ stream last n m. (refl, Memory.xread-after stream last n m);
  xgroup_create_lem = λ stream group m. created (m.groups stream group) stream group m;
  xgroup_create_refused =
      λ stream group text m. refused (m.groups stream group) stream group text m;
  xreadgroup_new_lem = λ stream group consumer n block m. (refl, refl);
  xreadgroup_pending_lem = λ stream group consumer n m. (refl, refl);
  xack_lem = λ stream group id m. refl;
  sadd_lem = λ key member m. (refl, refl);
  sismember_lem = λ key member m. (refl, refl);
}

pub memory_up : IsUp memory
memory_up = record { xadd_up = λ stream f m. tt; xread_up = λ stream last n m. tt }
