-- ===== src/Redis/Keys.antt =====
-- The three keys of a request are different, and what is put at one is not found at another.
use ledger_engine.Prelude.{
  ◌≡◌, ◌≢◌, refl, ap, false, ◌<◌, str_eq, eq_iff, eq_refl, Bool-cases, inl, inr, String, ◌<>◌, some,
  List, [], ◌∷◌, arith,
}
use text.Mathlib.TextLemmas.{length-append}
use Prim.Native.String.{count}
use ledger_engine.Environment.{Time}
use ledger_engine.Redis.{
  Item, find, remove, put, idempotency_key, idempotency_lock, idempotency_status,
}

apart : (p q key : String) → count p ≢ count q → str_eq (p <> key) (q <> key) ≡ false
apart p q key h = elim (Bool-cases (str_eq (p <> key) (q <> key))) [
  | inl same ↦ absurd (
      h (
        omega (
          arith,
          length-append p key,
          length-append q key,
          ap count ((eq_iff (p <> key) (q <> key)).0 same),
        )))
  | inr other ↦ other
]

pub key_lock : (key : String) → str_eq (idempotency_key key) (idempotency_lock key) ≡ false
key_lock key = apart "idem:" "idem:lock:" key (omega arith)

pub status_key : (key : String) → str_eq (idempotency_status key) (idempotency_key key) ≡ false
status_key key = apart "idem:status:" "idem:" key (omega arith)

pub lock_key : (key : String) → str_eq (idempotency_lock key) (idempotency_key key) ≡ false
lock_key key = apart "idem:lock:" "idem:" key (omega arith)

pub lock_status : (key : String) → str_eq (idempotency_lock key) (idempotency_status key) ≡ false
lock_status key = apart "idem:lock:" "idem:status:" key (omega arith)

pub find-remove :
    (now : Time) (key other : String) (items : List Item)
    → str_eq other key ≡ false
    → find now key (remove other items) ≡ find now key items
unfolding find remove
find-remove now key other [] h = refl
find-remove now key other (i ∷ items) h = ground (
  arith,
  h,
  eq_iff i.key other,
  eq_iff i.key key,
  eq_iff other key,
  find-remove now key other items,
)

pub find-put_other :
    (now : Time) (key : String) (i : Item) (items : List Item)
    → str_eq i.key key ≡ false
    → find now key (put i items) ≡ find now key items
unfolding find
find-put_other now key i items h = rw h (find-remove now key i.key items h)

pub find-put :
    (now : Time) (i : Item) (items : List Item)
    → now < i.expires
    → find now i.key (put i items) ≡ some i.value
unfolding find
find-put now i items h = rw (eq_refl i.key) (ground (arith, h))
