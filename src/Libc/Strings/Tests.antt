-- ===== src/Libc/Strings/Tests.antt =====
-- Runs of the string functions, for src/kernel/libc/src/string.c, strings.c and ctype.c.
use larva_os.Base.{◌≡◌, refl, arith, some, Ram, null, if◌then◌else◌, ◌>>=◌, ◌==◌, false}
use larva_os.Libc.Memory.{memcpy}
use larva_os.Libc.Strings.{
  strlen, strcpy, strncpy, strcasecmp, strncasecmp, isdigit, isupper, islower, tolower, toupper,
}
use larva_os.Libc.Strings.Length.{IsString, strlen_lem}
use larva_os.Libc.Strings.Compare.{IsBytes}

-- "Hi" at 0, "hI" at 16 and 0 elsewhere.
abbrev words : Ram
words a =
    if a == 0
    then b'H'
    else (if a == 1 then b'i' else (if a == 16 then b'h' else (if a == 17 then b'I' else 0)))

words-IsBytes : IsBytes words
words-IsBytes a = ground arith

words-IsString : IsString words 0 2
words-IsString = record { inside = λ j h e. ground arith; end = refl }

strlen_lem_example : strlen 3 words 0 0 ≡ some 2
strlen_lem_example = strlen_lem words 2 0 3 words-IsString (omega arith)

strcasecmp-words : strcasecmp 3 words 0 16 ≡ some 0
unfolding strcasecmp tolower isupper
strcasecmp-words = refl

strncasecmp-words : strncasecmp words 0 16 2 ≡ 0
unfolding strncasecmp toupper islower
strncasecmp-words = refl

isdigit_h : isdigit b'h' ≡ false
unfolding isdigit
isdigit_h = refl

strcpy-words : (strcpy 3 words 32 0 >>= λ (m : Ram). some (m 33)) ≡ some b'i'
unfolding strcpy
strcpy-words = refl

strncpy-words : (strncpy words 32 1 4).0 ≡ 32
unfolding strncpy
strncpy-words = refl

strncpy-null : (strncpy words null 0 4).0 ≡ null
unfolding strncpy
strncpy-null = refl

memcpy-words : memcpy words 32 16 2 33 ≡ b'I'
unfolding memcpy
memcpy-words = refl
