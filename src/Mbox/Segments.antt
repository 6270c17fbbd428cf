-- ===== src/Mbox/Segments.antt =====
-- What the readers of an mbox archive find, by the lines that start its messages
-- (internal/source/archive_mbox.go).
use gmeow.Base.{
  ℕ, zero, suc, ◌+◌, ◌<◌, String, true, false, Option, none, some, List, [], ◌∷◌, ◌++◌, map,
  if◌then◌else◌, ◌⊎◌, inl, inr, ◌≡◌, refl, sym, ap, arith,
}
use gmeow.Mbox.{
  is_from, unquote, text_of, is_some_text, message_offsets, for_each_mbox_message_offset,
  message_at, parse_mbox_message_at, MboxError, parse_failed, parse_next, messages, parse_then,
  parse_mbox_file,
}

-- The lines before the first `From ` line, and those after each `From ` line up to the next.
abbrev pub split : List String → List String × List (List String)
split [] = ([], [])
split (line ∷ lines) =
    let rest = split lines in
    if is_from line then ([], rest.0 ∷ rest.1) else (line ∷ rest.0, rest.1)

-- A list with its indices, from some number on.
abbrev pub number {ℓ} : {A : Type ℓ} → ℕ → List A → List (ℕ × A)
number n [] = []
number n (x ∷ xs) = (n, x) ∷ number (suc n) xs

module _ (byte_length : String → ℕ) where
  abbrev pub size_of : List String → ℕ
  size_of [] = 0
  size_of (line ∷ lines) = byte_length line + 1 + size_of lines

  message_offsets-inside :
      (lines : List String) (offset size : ℕ)
      → message_offsets byte_length none lines true offset size
        ≡ (number offset ((size + size_of (split lines).0) ∷ map size_of (split lines).1), none)
  unfolding message_offsets
  message_offsets-inside [] offset size = ground arith
  message_offsets-inside (line ∷ lines) offset size = ground (
    arith,
    message_offsets-inside lines (suc offset) 0,
    message_offsets-inside lines offset (size + (byte_length line + 1)),
  )

  message_offsets-before :
      (lines : List String)
      → message_offsets byte_length none lines false 0 0
        ≡ (number 0 (map size_of (split lines).1), none)
  unfolding message_offsets
  message_offsets-before [] = refl
  message_offsets-before (line ∷ lines) =
      ground (arith, message_offsets-before lines, message_offsets-inside lines 0 0)

  -- If the scanner ends without an error, the offsets that are reported number the parts of the
  -- file after its `From ` lines, empty ones too, from 0 on, each with its size: the bytes of its
  -- lines and one for each line feed.
  pub for_each_mbox_message_offset-split :
      (lines : List String)
      → for_each_mbox_message_offset byte_length none lines
        ≡ (number 0 (map size_of (split lines).1), none)
  unfolding for_each_mbox_message_offset
  for_each_mbox_message_offset-split lines = message_offsets-before lines

append_nil {ℓ} : {A : Type ℓ} (xs : List A) → xs ++ [] ≡ xs
append_nil [] = refl
append_nil (x ∷ xs) = ap (λ ys. x ∷ ys) (append_nil xs)

append_assoc {ℓ} : {A : Type ℓ} (xs ys zs : List A) → (xs ++ ys) ++ zs ≡ xs ++ (ys ++ zs)
append_assoc [] ys zs = refl
append_assoc (x ∷ xs) ys zs = ap (λ r. x ∷ r) (append_assoc xs ys zs)

abbrev pub nth {ℓ} : {A : Type ℓ} → ℕ → List A → Option A
nth n [] = none
nth zero (x ∷ xs) = some x
nth (suc n) (x ∷ xs) = nth n xs

module _ {M : Type 0} (parse : String → ℕ → String ⊎ M) where
  -- The message of some lines, where there are any.
  abbrev pub parsed : ℕ → List String → Option (String ⊎ M)
  parsed wanted [] = none
  parsed wanted (line ∷ lines) = some (parse (text_of (line ∷ lines)) wanted)

  abbrev pub parsed_nth : ℕ → Option (List String) → Option (String ⊎ M)
  parsed_nth wanted none = none
  parsed_nth wanted (some lines) = parsed wanted (map unquote lines)

  message_at-past :
      (wanted : ℕ) (lines : List String) (seen : ℕ) (current : List String)
      → suc wanted < seen
      → message_at parse none wanted lines seen current ≡ none
  unfolding message_at
  message_at-past wanted [] seen current h = ground arith
  message_at-past wanted (line ∷ lines) seen current h =
      ground (
        arith,
        message_at-past wanted lines (suc seen) [],
        message_at-past wanted lines seen current,
      )

  found_text :
      (wanted : ℕ) (current : List String) (rest : Option (String ⊎ M))
      → rest ≡ none
      → (if is_some_text current then some (parse (text_of current) wanted) else rest)
        ≡ parsed wanted (current ++ [])
  found_text wanted [] rest h = h
  found_text wanted (line ∷ lines) rest h =
      ap (λ ls. parsed wanted ls) (sym (append_nil (line ∷ lines)))

  message_at-here :
      (wanted : ℕ) (lines current : List String)
      → message_at parse none wanted lines (suc wanted) current
        ≡ parsed wanted (current ++ map unquote (split lines).0)
  unfolding message_at
  message_at-here wanted [] current = ground (arith, found_text wanted current none)
  message_at-here wanted (line ∷ lines) current = ground (
    arith,
    found_text wanted current (message_at parse none wanted lines (suc (suc wanted)) []),
    message_at-past wanted lines (suc (suc wanted)) [],
    message_at-here wanted lines (current ++ (unquote line ∷ [])),
    append_assoc current (unquote line ∷ []) (map unquote (split lines).0),
  )

  message_at-before :
      (wanted : ℕ) (lines : List String) (seen left : ℕ) (current : List String)
      → seen + left ≡ wanted
      → message_at parse none wanted lines seen current
        ≡ parsed_nth wanted (nth left (split lines).1)
  unfolding message_at
  message_at-before wanted [] seen left current h = ground arith
  message_at-before wanted (line ∷ lines) seen zero current h =
      ground
        (arith, message_at-here wanted lines [], message_at-before wanted lines seen zero current)
  message_at-before wanted (line ∷ lines) seen (suc left) current h = ground (
    arith,
    message_at-before wanted lines (suc seen) left [],
    message_at-before wanted lines seen (suc left) current,
  )

  -- If the scanner ends without an error, the message at an offset is the parse of the part of
  -- that number after the `From ` lines, with its quoted lines unquoted, and there is none where
  -- there is no such part or it is empty.
  pub parse_mbox_message_at-split :
      (wanted : ℕ) (lines : List String)
      → parse_mbox_message_at parse none wanted lines
        ≡ parsed_nth wanted (nth wanted (split lines).1)
  unfolding parse_mbox_message_at
  parse_mbox_message_at-split wanted lines =
      message_at-before wanted lines 0 wanted [] (omega arith)

abbrev pub non_empty {ℓ} : {A : Type ℓ} → List (List A) → List (List A)
non_empty [] = []
non_empty ([] ∷ xss) = non_empty xss
non_empty ((x ∷ xs) ∷ xss) = (x ∷ xs) ∷ non_empty xss

-- The values before the first failure of some numbered outcomes.
abbrev pub before_failure {ℓ} : {M : Type ℓ} → List (ℕ × (String ⊎ M)) → List M
before_failure [] = []
before_failure ((n, inl e) ∷ outcomes) = []
before_failure ((n, inr message) ∷ outcomes) = message ∷ before_failure outcomes

-- The first failure of some numbered outcomes.
abbrev pub first_failure {ℓ} : {M : Type ℓ} → String → List (ℕ × (String ⊎ M)) → Option MboxError
first_failure path [] = none
first_failure path ((n, inl e) ∷ outcomes) = some (parse_failed path n e)
first_failure path ((n, inr message) ∷ outcomes) = first_failure path outcomes

-- The parts of a file that `parseMboxFile` reads, unquoted.
abbrev pub parts : List String → List (List String)
parts lines = map unquote (split lines).0 ∷ map (λ ls. map unquote ls) (split lines).1

module _ {M : Type 0} (parse : String → ℕ → String ⊎ M) where
  -- The outcomes of the parses of numbered lists of lines.
  abbrev pub outcomes : List (ℕ × List String) → List (ℕ × (String ⊎ M))
  outcomes [] = []
  outcomes ((n, lines) ∷ rest) = (n, parse (text_of lines) n) ∷ outcomes rest

module _ {M : Type 0} (path : String) (parse : String → ℕ → String ⊎ M) where
  abbrev up_to_failure : List (ℕ × (String ⊎ M)) → List M × Option MboxError
  up_to_failure os = (before_failure os, first_failure path os)

  abbrev read_parts : ℕ → List (List String) → List M × Option MboxError
  read_parts offset segments = up_to_failure (outcomes parse (number offset (non_empty segments)))

  parse_next-up_to_failure :
      (offset : ℕ) (outcome : String ⊎ M) (rest : List (ℕ × (String ⊎ M)))
      → parse_next path offset outcome (up_to_failure rest)
        ≡ up_to_failure ((offset, outcome) ∷ rest)
  unfolding parse_next
  parse_next-up_to_failure offset (inl e) rest = refl
  parse_next-up_to_failure offset (inr message) rest = refl

  -- What is gathered is parsed where a part ends, if there is some text.
  parse_then-read_parts :
      (current : List String) (offset : ℕ) (segments : List (List String))
      → (if is_some_text current
          then parse_then path parse none current offset (read_parts (suc offset) segments)
          else read_parts offset segments)
        ≡ read_parts offset ((current ++ []) ∷ segments)
  unfolding parse_then
  parse_then-read_parts [] offset segments = refl
  parse_then-read_parts (line ∷ lines) offset segments = rw (append_nil lines) (
      parse_next-up_to_failure offset (parse (text_of (line ∷ lines)) offset)
        (outcomes parse (number (suc offset) (non_empty segments))))

  messages-split :
      (lines current : List String) (offset : ℕ)
      → messages path parse none lines current offset
        ≡ read_parts offset
            ((current ++ map unquote (split lines).0) ∷ map (λ ls. map unquote ls) (split lines).1)
  unfolding messages
  messages-split [] current offset = ground (arith, parse_then-read_parts current offset [])
  messages-split (line ∷ lines) current offset = ground (
    arith,
    messages-split lines [] (suc offset),
    messages-split lines [] offset,
    messages-split lines (current ++ (unquote line ∷ [])) offset,
    append_assoc current (unquote line ∷ []) (map unquote (split lines).0),
    parse_then-read_parts current offset (parts lines),
  )

  -- If the scanner ends without an error, the messages of a file are the results of the parser,
  -- before its first failure, on the lines before the first `From ` line and on the parts after
  -- each, unquoted, where empty ones are left out and the others are numbered from 0 on. The
  -- error is the first failure, wrapped with the path and the number of its part, and none where
  -- the parser does not fail.
  pub parse_mbox_file-split :
      (lines : List String)
      → parse_mbox_file path parse none lines ≡ (
        before_failure (outcomes parse (number 0 (non_empty (parts lines)))),
        first_failure path (outcomes parse (number 0 (non_empty (parts lines)))),
      )
  unfolding parse_mbox_file
  parse_mbox_file-split lines = messages-split lines [] 0
