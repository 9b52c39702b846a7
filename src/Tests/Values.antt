-- ===== src/Tests/Values.antt =====
-- Parameters and fields of the PostgreSQL driver, src/adriverpg.cpp.
use asql.Base.{false, none, some, [], ◌∷◌, ◌≡◌, refl, ◌↔◌}
use asql.Postgres.{string}
use asql.Postgres.Binding.{ByteOrder, bind, IsAbsent, bind-IsAbsent}
use asql.Postgres.Values.{decode_type, Field, neither, Conversions, value, Agrees, value-Agrees}

abbrev order : ByteOrder
order = record { four = λ n. 0 ∷ 0 ∷ 0 ∷ 1 ∷ []; eight = λ n. 0 ∷ 0 ∷ 0 ∷ 0 ∷ 0 ∷ 0 ∷ 0 ∷ 1 ∷ [] }

-- An empty text is sent as a text.
empty_text : (bind order (string (some []))).value ≡ some []
unfolding bind
empty_text = refl

bind-IsAbsent_example : ((bind order (string none)).value ≡ none) ↔ IsAbsent order (string none)
bind-IsAbsent_example = bind-IsAbsent order (string none)

abbrev plain : Conversions
plain = record {
  document = λ bs. neither;
  from_hex = λ bs. bs;
  unescape = λ bs. bs;
  same_word = λ a b. false;
}

abbrev stamp : Field
stamp = record {
  oid = 1184;
  format = 0;
  null = false;
  text =
      b'2' ∷ b'0' ∷ b'2' ∷ b'0' ∷ b'-' ∷ b'0' ∷ b'1' ∷ b'-' ∷ b'0' ∷ b'1' ∷ b'T' ∷ b'0' ∷ b'0'
      ∷ b':' ∷ b'0' ∷ b'0' ∷ b'+' ∷ b'0' ∷ b'2' ∷ [];
}

value-Agrees_example : Agrees plain (decode_type 1184) stamp (value plain (stamp ∷ []) 0)
value-Agrees_example = value-Agrees plain (stamp ∷ []) 0 stamp refl refl refl
