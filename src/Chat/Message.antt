-- ===== src/Chat/Message.antt =====
-- A chat message and its key (`getChatMessageKey`, web/src/store/index.js). An id is the number
-- that the server's database gave the row; a property that is missing is `none`. No property is
-- null: the messages of server/src/chat/chat.gateway.ts and of the client hold none that is.
use Prim.Native.String.{◌++◌ as cat}
use wos_sfc.Prelude.{
  ℕ, String, ◌≡◌, ◌↔◌, Bool, true, false, ◌||◌, Option, none, some, List, arith, Eq, ◌==◌,
  string_eq, nat_eq, if◌then◌else◌, is_some, or_else,
}
use text.Mathlib.TextEquality.{eq_iff}

-- What the server sends under `translations`: a value for each language, `none` where the value
-- is no text.
abbrev pub TextMap : Type 0
TextMap = List (String × Option String)

pub record Message : Type 0 where
  pub id : Option ℕ
  pub sys_id : Option String
  pub type : Option String
  pub created_at : Option String
  pub nickname : Option String
  pub content : Option String
  pub text : Option String
  pub kind : Option String
  pub count : Option ℕ
  pub nicknames : Option (List String)
  -- The outer `none` is a message without the property, the inner one a value that is no object.
  pub translations : Option (Option TextMap)

-- `value || fallback`, where the empty text counts as missing.
unfoldable pub text_or : Option String → String → String
text_or none fallback = fallback
text_or (some s) fallback = if s == "" then fallback else s

-- The texts `message:ID`, `system:ID` and the four joined parts. An id is a number and a `_id` holds
-- no colon, so the three forms never coincide.
pub data ChatKey : Type 0 where
  message : ℕ → ChatKey
  system : String → ChatKey
  joined : String → ChatKey

abbrev pub key_beq : ChatKey → ChatKey → Bool
key_beq (message a) (message b) = a == b
key_beq (system a) (system b) = a == b
key_beq (joined a) (joined b) = a == b
key_beq _ _ = false

pub key_beq_iff : (a b : ChatKey) → (key_beq a b ≡ true) ↔ (a ≡ b)
key_beq_iff (message a) (message b) = ground arith
key_beq_iff (system a) (system b) = ground (arith, eq_iff a b)
key_beq_iff (joined a) (joined b) = ground (arith, eq_iff a b)
key_beq_iff (message a) (system b) = ground arith
key_beq_iff (message a) (joined b) = ground arith
key_beq_iff (system a) (message b) = ground arith
key_beq_iff (system a) (joined b) = ground arith
key_beq_iff (joined a) (message b) = ground arith
key_beq_iff (joined a) (system b) = ground arith

instance abbrev pub chat_key_eq : Eq ChatKey
chat_key_eq = record { beq = key_beq; beq_iff = key_beq_iff }

join_colon : String → String → String
join_colon a b = cat a (cat ":" b)

joined_key : Message → String
unfolding join_colon text_or
joined_key m = join_colon (text_or m.type "message") (
    join_colon (text_or m.created_at "")
      (join_colon (text_or m.nickname "") (text_or m.content (text_or m.text ""))))

abbrev key_of : Option ℕ → Option String → String → ChatKey
key_of (some id) _ _ = message id
key_of none (some s) _ = system s
key_of none none parts = joined parts

unfoldable pub get_chat_message_key : Message → ChatKey
unfolding joined_key
get_chat_message_key m = key_of m.id m.sys_id (joined_key m)

-- `{ ...previous, ...message }`
unfoldable pub overlay : Message → Message → Message
overlay previous m = record {
  id = or_else m.id previous.id;
  sys_id = or_else m.sys_id previous.sys_id;
  type = or_else m.type previous.type;
  created_at = or_else m.created_at previous.created_at;
  nickname = or_else m.nickname previous.nickname;
  content = or_else m.content previous.content;
  text = or_else m.text previous.text;
  kind = or_else m.kind previous.kind;
  count = or_else m.count previous.count;
  nicknames = or_else m.nicknames previous.nicknames;
  translations = or_else m.translations previous.translations;
}

-- A message of the server has an id, and one that the client makes has a `_id`.
abbrev pub IsIdentified : Message → Type 0
IsIdentified m = (is_some m.id || is_some m.sys_id) ≡ true

-- `message?._type === 'system'`
abbrev is_text : Option String → String → Bool
is_text none s = false
is_text (some t) s = t == s

unfoldable pub is_system : Message → Bool
is_system m = is_text m.type "system"

pub overlay-IsIdentified : (p m : Message) → IsIdentified m → IsIdentified (overlay p m)
unfolding overlay
overlay-IsIdentified p m h = ground arith

-- The merged message has the key of the message that came in.
pub key-overlay :
    (p m : Message)
    → IsIdentified m
    → get_chat_message_key p ≡ get_chat_message_key m
    → get_chat_message_key (overlay p m) ≡ get_chat_message_key m
unfolding overlay get_chat_message_key
key-overlay p m h e = ground arith
