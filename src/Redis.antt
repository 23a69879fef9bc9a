-- ===== src/Redis.antt =====
-- internal/infra/redis/idempotency.go: the keys of requests, their stored responses and their locks.
-- A Redis server is a list of items with the time at which each expires. What the client library
-- answers to a command is a parameter.
pub mod Keys
use ledger_engine.Prelude.{
  ⊤, ℕ, ◌+◌, ◌*◌, ◌^◌, ◌≡◌, Bool, true, false, ltb, if◌then◌else◌, str_eq, String, ◌<>◌, Option,
  none, some, List, [], ◌∷◌,
}
use ledger_engine.Prelude.Rows.{select}
use ledger_engine.Environment.{Time}
use ledger_engine.Errors.{Error, Result, ok, err}
use ledger_engine.Exec.{Exec, continue}

abbrev pub Bytes : Type 0
Bytes = List ℕ

-- `fault n` is the error, if any, of the n-th command, which then has no effect, and `now n` the
-- server's time there. A value is sent as bytes, a number as its digits.
pub record Server : Type 0 where
  pub fault : ℕ → Option Error
  pub now : ℕ → Time
  pub utf8 : String → Bytes
  pub to_int : Bytes → Result ℕ
  pub digits : ℕ → Bytes
  pub to_int-digits : (n : ℕ) → to_int (digits n) ≡ ok n

pub record Item : Type 0 where
  pub key : String
  pub value : Bytes
  pub expires : Time

pub record Store : Type 0 where
  pub items : List Item
  pub calls : ℕ

-- time.Second, in nanoseconds
abbrev pub second : ℕ
second = 1000000000

-- DefaultTTL, and the expiration of a lock
abbrev pub default_ttl : ℕ
default_ttl = 24 * 3600 * second

abbrev pub lock_ttl : ℕ
lock_ttl = 30 * second

abbrev pub idempotency_key : String → String
idempotency_key key = "idem:" <> key

abbrev pub idempotency_lock : String → String
idempotency_lock key = "idem:lock:" <> key

abbrev pub idempotency_status : String → String
idempotency_status key = "idem:status:" <> key

-- The value of a key that has not expired.
unfoldable pub find : Time → String → List Item → Option Bytes
find now key [] = none
find now key (i ∷ items) =
    if str_eq i.key key
    then if ltb now i.expires then some i.value else none
    else find now key items

unfoldable pub remove : String → List Item → List Item
remove key [] = []
remove key (i ∷ items) = let rest = remove key items in if str_eq i.key key then rest else i ∷ rest

abbrev pub put : Item → List Item → List Item
put i items = i ∷ remove i.key items

abbrev reply : Option Error → Time → Result Time
reply none now = ok now
reply (some e) now = err e

module _ (redis : Server) where
  unfoldable pub command : Exec Store Time
  command s = (reply (redis.fault s.calls) (redis.now s.calls), record s { calls = s.calls + 1 })

  -- GET; redis.Nil is none
  unfoldable pub get : String → Exec Store (Option Bytes)
  get key s = continue (command s) (λ now s'. (ok (find now key s'.items), s'))

  unfoldable pub set : String → Bytes → ℕ → Exec Store ⊤
  set key value ttl s = continue (command s) (λ now s'. (
    ok tt,
    record s' { items = put (record { key = key; value = value; expires = now + ttl }) s'.items },
  ))

  unfoldable pub del : String → Exec Store ⊤
  del key s = continue (command s) (λ _ s'. (ok tt, record s' { items = remove key s'.items }))

  abbrev set_absent : Option Bytes → Item → Exec Store Bool
  set_absent (some _) i s = (ok false, s)
  set_absent none i s = (ok true, record s { items = put i s.items })

  -- SET key value EX ttl NX
  unfoldable pub set_nx : String → Bytes → ℕ → Exec Store Bool
  set_nx key value ttl s = continue (command s) (λ now s'.
      set_absent (find now key s'.items) (record { key = key; value = value; expires = now + ttl })
        s')

  unfoldable pub check : String → Exec Store (Option Bytes)
  check key = get (idempotency_key key)

  unfoldable pub lock : String → Exec Store Bool
  lock key = set_nx (idempotency_lock key) (redis.utf8 "processing") lock_ttl

  -- The first error of a pipeline, whose commands are all run.
  abbrev pub first_error : Result ⊤ → Result ⊤ → Result ⊤ → Result ⊤
  first_error (err e) _ _ = err e
  first_error (ok _) (err e) _ = err e
  first_error (ok _) (ok _) r = r

  unfoldable pub store : String → Bytes → ℕ → Exec Store ⊤
  store key response status s =
      let (r₁, s₁) = set (idempotency_key key) response default_ttl s in
      let (r₂, s₂) = set (idempotency_status key) (redis.digits status) default_ttl s₁ in
      let (r₃, s₃) = del (idempotency_lock key) s₂ in (first_error r₁ r₂ r₃, s₃)

  abbrev parsed : Option Bytes → Result ℕ
  parsed none = ok 0
  parsed (some value) = redis.to_int value

  unfoldable pub get_status : String → Exec Store ℕ
  get_status key s = continue (get (idempotency_status key) s) (λ value s'. (parsed value, s'))

  unfoldable pub unlock : String → Exec Store ⊤
  unlock key = del (idempotency_lock key)
