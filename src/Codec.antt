-- ===== src/Codec.antt =====
-- Package encoding/json as the program uses it: values of one struct type as texts.
pub mod Marks
use throttle.Prelude.{String, ◌≡◌, ◌≢◌}
use throttle.Exec.{Result, ok}

pub record Codec (A : Type 0) : Type 0 where
  pub marshal : A → Result String
  pub unmarshal : String → Result A

-- What the documentation of encoding/json says of a struct with tagged fields: it is marshalled to
-- an object, which is never the empty text, and unmarshalling that object gives the struct back.
pub record IsCodecAt {A : Type 0} (json : Codec A) (a : A) : Type 0 where
  pub text : String
  pub marshals : json.marshal a ≡ ok text
  pub nonempty : text ≢ ""
  pub unmarshals : json.unmarshal text ≡ ok a
