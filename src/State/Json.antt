-- ===== src/State/Json.antt =====
-- encoding/json at one type: json.Marshal, and json.Unmarshal into a zero value, whose error the
-- store ignores.
use rezuscloud.Prelude.{◌≡◌, some, String}
use rezuscloud.State.Resources.{Value}

pub record Codec (A : Type 0) : Type 0 where
  pub marshal : A → Value
  pub unmarshal : String → A

-- Decoding what was encoded gives the value back.
abbrev pub RoundTrips : {A : Type 0} → Codec A → A → Type 0
RoundTrips c a = (text : String) → c.marshal a ≡ some text → c.unmarshal text ≡ a
