-- ===== src/Chat/Framing.antt =====
-- The lines of a byte stream: `trim` and `extract_message`, which 5/chat_server.cpp and
-- 5/chat_client.cpp both have, and the loop that calls them.
pub mod Lines
pub mod Trim
use system_prog.Common.{
  ℕ, zero, suc, Bool, true, false, Option, none, some, List, [], ◌∷◌, leb, if◌then◌else◌, ◌==◌,
  ◌||◌, ◌&&◌, is_empty, length, Bytes,
}

-- What a message holds.
pub record ChatMessage : Type 0 where
  pub author : Bytes
  pub text : Bytes

pub data ErrorCode : Type 0 where
  ok invalid_argument timeout port_busy no_addr already_started not_implemented not_started sys :
      ErrorCode

-- `isspace` in the C locale.
abbrev pub is_space : ℕ → Bool
is_space c = c == 32 || (leb 9 c && leb c 13)

unfoldable pub trim_left : Bytes → Bytes
trim_left [] = []
trim_left (c ∷ cs) = if is_space c then trim_left cs else c ∷ cs

abbrev pub keep : ℕ → Bytes → Bytes
keep c cs = if is_empty cs && is_space c then [] else c ∷ cs

unfoldable pub trim_right : Bytes → Bytes
trim_right [] = []
trim_right (c ∷ cs) = keep c (trim_right cs)

unfoldable pub trim : Bytes → Bytes
unfolding trim_left trim_right
trim s = trim_right (trim_left s)

abbrev pub longer : ℕ → Option (Bytes × Bytes) → Option (Bytes × Bytes)
longer c none = none
longer c (some (line, rest)) = some (c ∷ line, rest)

-- The bytes before the first line feed and those behind it.
unfoldable pub extract_message : Bytes → Option (Bytes × Bytes)
extract_message [] = none
extract_message (c ∷ cs) = if c == 10 then some ([], cs) else longer c (extract_message cs)

-- `while (extract_message(buf, msg))` with a body that leaves the buffer alone.
unfoldable pub each_line : {S : Type 0} → (S → Bytes → S) → ℕ → Bytes → S → S × Bytes
each_line body zero buffer s = (s, buffer)
each_line body (suc fuel) buffer s = elim (extract_message buffer) [
  | none ↦ (s, buffer)
  | some (line, rest) ↦ each_line body fuel rest (body s line)
]

-- Every line that is extracted has a line feed, so this is enough fuel.
abbrev pub all_lines : {S : Type 0} → (S → Bytes → S) → Bytes → S → S × Bytes
all_lines body buffer s = each_line body (suc (length buffer)) buffer s

-- `msg.find(": ")`, and what stands before and behind it.
unfoldable pub split_author : Bytes → Option (Bytes × Bytes)
split_author [] = none
split_author (c ∷ []) = none
split_author (c ∷ d ∷ cs) =
    if c == 58 && d == 32 then some ([], cs) else longer c (split_author (d ∷ cs))
