-- ===== src/Examples/ProtocolRuns.antt =====
-- The round trip of the protocol, for an array of a number, a text, the empty text and a list that
-- GET found.
use Prim.Native.String
use unit_redis_ness.Prelude.{◌≡◌, refl, none, some, [], ◌∷◌, pos, arith}
use unit_redis_ness.Number.{integer}
use unit_redis_ness.DatabaseValue.{list}
use unit_redis_ness.Token.{Token, token, end, array, count, text, value}
use unit_redis_ness.Protocol.{serialize, utf16_length, comma_separated}
use unit_redis_ness.Protocol.Reader.{
  nil, bulk_reply, error_reply, number_reply, array_reply, no_more, reply, read, read_line,
  read_bytes, read_kind,
}
use unit_redis_ness.Protocol.RoundTrip.{read-serialize}
use unit_redis_ness.Protocol.Sendable.{
  IsSendable, IsSendableText, IsSendableValue, IsLine, has_return, IsAscii, is_ascii, with_commas,
  after_commas, shown, size,
}
use unit_redis_ness.Examples.Decimal.{decimal, decimal_laws, decimal_prints}

abbrev replies : Token
replies = array (
    token (count 3) (
      token (text "ab") (
        token (text "")
          (token (value (record { value = list ("x" ∷ "y" ∷ []); expired_at = none })) end))))

replies-IsSendable : IsSendable decimal replies
unfolding IsSendable IsSendableText IsSendableValue IsLine has_return IsAscii is_ascii utf16_length
    comma_separated
replies-IsSendable =
    (omega arith, (omega arith, ((refl, omega arith), ((refl, omega arith), (refl, tt)))))

-- The reader tells the empty text from nil.
read_empty : read decimal 1 "$0\r\n\r\n" ≡ some (bulk_reply "", "")
unfolding read read_line read_kind read_bytes decimal
read_empty = refl

read_nothing : read decimal 1 "$-1\r\n" ≡ some (nil, "")
unfolding read read_line read_kind decimal
read_nothing = refl

read-serialize_example :
    read decimal (size replies) (String.◌++◌ (serialize decimal replies) "+OK")
    ≡ some (
      array_reply (
          reply
            (number_reply (integer (pos 3)))
            (reply (bulk_reply "ab") (reply nil (reply (error_reply "x,y") no_more)))),
      "+OK",
    )
unfolding shown with_commas after_commas
read-serialize_example =
    read-serialize decimal decimal_laws decimal_prints replies (size replies) "+OK"
      replies-IsSendable (omega arith)
