-- ===== src/StringCommands/Basic/Laws.antt =====
-- What GET, GETSET, SETNX, MGET and MSET show and change.
use unit_redis_ness.Prelude.{String, ◌≡◌, refl, ◌∙◌, Option, none, some, List, [], ◌∷◌}
use unit_redis_ness.Outcome.{returns}
use unit_redis_ness.DatabaseValue.{DatabaseValue, string, of_payload, get_string}
use unit_redis_ness.Database.{exists as exists_value}
use unit_redis_ness.Database
use unit_redis_ness.Database.Laws.{
  view, Leaves, SameView, view-get, get-view, Leaves-put, live_undated,
}
use unit_redis_ness.Token.{Tokens, end, token, array, count, text, null_string}
use unit_redis_ness.Command.{Request, get_param, Store}
use unit_redis_ness.StringCommands.Basic.{
  get_command, getset, setnx, mget, mget_all, text_of, item_or_null,
}

abbrev pub value_at : Request → Store → String → Option DatabaseValue
value_at r s key = view r.now s.db key

-- A new text without a deadline at the key, and no other change.
abbrev pub HoldsText : Request → Store → Store → String → String → Type 0
HoldsText r s s' key x = Leaves r.now s.db s'.db key (some (of_payload (string x)))

module _ (r : Request) (s : Store) where
  -- GET replies with the value that has not lapsed, of any type, or with nil; it changes nothing.
  pub get_command_lem :
      ((get_command r s).0 ≡ returns (item_or_null (value_at r s (get_param r 0))))
      × SameView r.now s.db (get_command r s).1.db
  unfolding get_command
  get_command_lem =
      rw (get-view r.now s.db (get_param r 0)) (refl, view-get r.now s.db (get_param r 0))

  stores_text :
      (x : String)
      → Leaves r.now s.db
          (Database.put
            (Database.get r.now s.db (get_param r 0)).1
            (get_param r 0)
            (of_payload (string x)))
          (get_param r 0)
          (some (of_payload (string x)))
  stores_text x =
      Leaves-put r.now s.db (get_param r 0) _ (live_undated r.now s.db (get_param r 0) _ refl)

  -- Where the key holds a value of any type, SETNX replies 0 and changes nothing.
  pub setnx_declines :
      (v : DatabaseValue)
      → value_at r s (get_param r 0) ≡ some v
      → ((setnx r s).0 ≡ returns (count 0)) × SameView r.now s.db (setnx r s).1.db
  unfolding setnx exists_value
  setnx_declines v held =
      rw (get-view r.now s.db (get_param r 0), held) (refl, view-get r.now s.db (get_param r 0))

  -- SETNX of a key that holds no value, or one that has lapsed, replies 1 and stores the text
  -- without a deadline, and no other key changes.
  pub setnx_stores :
      value_at r s (get_param r 0) ≡ none
      → ((setnx r s).0 ≡ returns (count 1))
        × HoldsText r s (setnx r s).1 (get_param r 0) (get_param r 1)
  unfolding setnx exists_value
  setnx_stores absent =
      rw (get-view r.now s.db (get_param r 0), absent) (refl, stores_text (get_param r 1))

  -- Where the key holds no value, GETSET replies nil and stores the text.
  pub getset_absent :
      value_at r s (get_param r 0) ≡ none
      → ((getset r s).0 ≡ returns null_string)
        × HoldsText r s (getset r s).1 (get_param r 0) (get_param r 1)
  unfolding getset
  getset_absent absent =
      rw (get-view r.now s.db (get_param r 0), absent) (refl, stores_text (get_param r 1))

  -- GETSET of a key that holds a text replies with it and stores the new one without a deadline,
  -- and no other key changes.
  pub getset_replaces :
      (old : DatabaseValue) (x : String)
      → value_at r s (get_param r 0) ≡ some old
      → get_string old ≡ returns x
      → ((getset r s).0 ≡ returns (text x))
        × HoldsText r s (getset r s).1 (get_param r 0) (get_param r 1)
  unfolding getset
  getset_replaces old x held read =
      rw (get-view r.now s.db (get_param r 0), held, read) (refl, stores_text (get_param r 1))

-- The replies of MGET for the keys, read from one state.
pub texts_at : Request → Store → List String → Tokens
texts_at r s [] = end
texts_at r s (key ∷ keys) = token (text_of (value_at r s key)) (texts_at r s keys)

texts_at-get :
    (r : Request) (s : Store) (key : String) (keys : List String)
    → texts_at r (record s { db = (Database.get r.now s.db key).1 }) keys ≡ texts_at r s keys
unfolding texts_at
texts_at-get r s key [] = refl
texts_at-get r s key (k ∷ keys) = rw (view-get r.now s.db key k, texts_at-get r s key keys)

mget_all-texts_at :
    (r : Request) (keys : List String) (s : Store)
    → ((mget_all r keys s).0 ≡ returns (texts_at r s keys))
      × SameView r.now s.db (mget_all r keys s).1.db
unfolding mget_all texts_at
mget_all-texts_at r [] s = (refl, λ j. refl)
mget_all-texts_at r (key ∷ keys) s =
    let (reply, same) =
      mget_all-texts_at r keys (record s { db = (Database.get r.now s.db key).1 }) in
    rw (get-view r.now s.db key, reply)
      (rw (texts_at-get r s key keys) refl, λ j. same j ∙ view-get r.now s.db key j)

-- MGET replies with what each named key holds at the start, in order, nil for an absent key and
-- for one of another type, and changes nothing.
pub mget_lem :
    (r : Request) (s : Store)
    → ((mget r s).0 ≡ returns (array (texts_at r s r.params))) × SameView r.now s.db (mget r s).1.db
unfolding mget
mget_lem r s = rw ((mget_all-texts_at r r.params s).0) (refl, (mget_all-texts_at r r.params s).1)
