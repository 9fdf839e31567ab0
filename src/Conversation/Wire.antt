-- ===== src/Conversation/Wire.antt =====
-- The messages of llm/client.go and their JSON, before the encoding and after the decoding.
-- Times are nanoseconds, and 0 is the zero time; an image is its URL.
use sokratos.Base.{ℕ, Option, List, [], ◌∷◌, if◌then◌else◌, is_empty, bytes, bytes_eq}

-- `ContentPart`, with the URL of its image.
pub record ContentPart : Type 0 where
  pub kind : List ℕ
  pub text : List ℕ
  pub image_url : Option (List ℕ)

pub record LlmMessage : Type 0 where
  pub role : List ℕ
  pub content : List ℕ
  pub parts : List ContentPart
  pub time : ℕ

-- The content of a message in JSON: a text, an array of parts, or neither.
pub data WireContent : Type 0 where
  plain_text : List ℕ → WireContent
  part_array : List ContentPart → WireContent
  raw_content : List ℕ → WireContent

pub record WireMessage : Type 0 where
  pub role : List ℕ
  pub content : WireContent

-- `MarshalJSON` before the encoding.
unfoldable pub to_wire : LlmMessage → WireMessage
to_wire m = record {
  role = m.role;
  content = if is_empty m.parts then plain_text m.content else part_array m.parts;
}

-- The text of the first part of type text.
unfoldable first_text : List ContentPart → List ℕ
first_text [] = []
first_text (p ∷ parts) =
    let rest = first_text parts in if bytes_eq p.kind (bytes "text") then p.text else rest

-- `UnmarshalJSON` after the decoding, on a new message.
unfoldable pub of_wire : WireMessage → LlmMessage
unfolding first_text
of_wire w = elim w.content [
  | plain_text s ↦ record { role = w.role; content = s; parts = []; time = 0 }
  | part_array parts ↦ record { role = w.role; content = first_text parts; parts = parts; time = 0 }
  | raw_content s ↦ record { role = w.role; content = s; parts = []; time = 0 }
]

-- `stripVisionParts`.
unfoldable pub strip_vision_parts : List LlmMessage → List LlmMessage
strip_vision_parts [] = []
strip_vision_parts (m ∷ messages) =
    (if is_empty m.parts then m else record m { parts = [] }) ∷ strip_vision_parts messages
