-- ===== src/Database.antt =====
-- src/resp/data/database.ts: `Database`, a dictionary whose entries lapse. `now` is the clock of
-- `new Date().getTime()`; the readings of one command are taken to agree.
pub mod Laws
use unit_redis_ness.Prelude.{
  ℕ, ◌+◌, String, ◌≡◌, refl, Bool, true, false, not, ◌&&◌, Option, none, some, ℤ, pos, ltb_ℤ,
  if◌then◌else◌,
}
use unit_redis_ness.Dictionary
use unit_redis_ness.Dictionary.{Dictionary, Truthy}
use unit_redis_ness.DatabaseValue.{DatabaseValue, DataType, none_type, is_set, get_type}

abbrev pub Database : Type 0
Database = Dictionary DatabaseValue

-- An object is truthy.
instance abbrev pub database_value_truthy : Truthy DatabaseValue
database_value_truthy = record { truthy = λ _. true }

abbrev pub empty : Database
empty = Dictionary.empty

-- `item.expiredAt && parseInt(item.expiredAt, 10) < new Date().getTime()`
unfoldable pub has_lapsed : ℕ → DatabaseValue → Bool
has_lapsed now item = elim item.expired_at [
  | none ↦ false
  | some t ↦ is_set (some t) && ltb_ℤ t (pos now)
]

-- Dictionary's `put` and `remove`
unfoldable pub put : Database → String → DatabaseValue → Database
put db key value = Dictionary.put db key value

unfoldable pub remove : Database → String → Option DatabaseValue × Database
remove db key = Dictionary.remove db key

-- What `get` makes of the item that it read: a lapsed one is removed.
sweep : ℕ → Database → String → Option DatabaseValue → Option DatabaseValue × Database
unfolding has_lapsed remove
sweep now db key none = (none, db)
sweep now db key (some item) =
    if has_lapsed now item then (none, (remove db key).1) else (some item, db)

unfoldable pub get : ℕ → Database → String → Option DatabaseValue × Database
unfolding sweep
get now db key = sweep now db key (Dictionary.get db key)

is_some : Option DatabaseValue → Bool
is_some none = false
is_some (some _) = true

unfoldable pub exists : ℕ → Database → String → Bool × Database
unfolding get is_some
exists now db key = let (item, db') = get now db key in (is_some item, db')

-- The result is the value that is stored at the key afterwards, or nothing.
put_if :
    Bool
    → Option DatabaseValue
    → Database
    → String
    → DatabaseValue
    → Option DatabaseValue × Database
unfolding put
put_if true old db key value = (some value, put db key value)
put_if false old db key value = (old, db)

unfoldable pub put_if_present :
    ℕ → Database → String → DatabaseValue → Option DatabaseValue × Database
unfolding get put_if is_some
put_if_present now db key value =
    let (old, db') = get now db key in put_if (is_some old) old db' key value

unfoldable pub put_if_absent :
    ℕ → Database → String → DatabaseValue → Option DatabaseValue × Database
unfolding get put_if is_some
put_if_absent now db key value =
    let (old, db') = get now db key in put_if (not (is_some old)) old db' key value

or_default : Option DatabaseValue → DatabaseValue → DatabaseValue
or_default none v = v
or_default (some w) v = w

unfoldable pub get_or_default : ℕ → Database → String → DatabaseValue → DatabaseValue × Database
unfolding get or_default
get_or_default now db key value = let (old, db') = get now db key in (or_default old value, db')

same_type : DataType → DataType → Bool
same_type DataType.hash DataType.hash = true
same_type DataType.list DataType.list = true
same_type DataType.none_type DataType.none_type = true
same_type DataType.set DataType.set = true
same_type DataType.string DataType.string = true
same_type DataType.zset DataType.zset = true
same_type _ _ = false

-- A key that holds nothing may take any type.
has_type : DataType → Option DatabaseValue → Bool
unfolding same_type get_type
has_type type none = true
has_type type (some v) = same_type (get_type v) type

unfoldable pub is_type : ℕ → Database → String → DataType → Bool × Database
unfolding get has_type
is_type now db key type = let (item, db') = get now db key in (has_type type item, db')

put_moved : Option DatabaseValue → Database → String → Bool × Database
unfolding put
put_moved none db to = (false, db)
put_moved (some v) db to = (true, put db to v)

-- `remove` takes the entry whether or not it has lapsed.
unfoldable pub rename : Database → String → String → Bool × Database
unfolding remove put_moved
rename db from to = let (value, db') = remove db from in put_moved value db' to
