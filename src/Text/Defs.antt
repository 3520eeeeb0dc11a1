-- ===== src/Text/Defs.antt =====
-- The functions of xv6-public/string.c but strlen, on a memory of bytes by address. A copy is given
-- addresses that do not pass the end of the memory; pointers are words, so a sum of one can wrap.
use os.Base.{
  ℕ, zero, suc, ◌+◌, ◌-◌, ◌*◌, ◌/◌, ◌%◌, ◌^◌, ◌&&◌, not, ◌==◌, ltb, if◌then◌else◌, ℤ, pos, negsuc,
}

abbrev pub u32 : ℕ
u32 = 2 ^ 32

abbrev pub Memory : Type 0
Memory = ℕ → ℕ

-- `*a = v`
abbrev pub store : Memory → ℕ → ℕ → Memory
store mem a v x = if x == a then v else mem x

-- `stosb`: n times the byte v from `a` on.
unfoldable pub stosb : ℕ → ℕ → ℕ → Memory → Memory
stosb zero a v mem = mem
stosb (suc n) a v mem = stosb n (a + 1) v (store mem a v)

-- One word, the low byte first.
abbrev pub store_word : Memory → ℕ → ℕ → Memory
store_word mem a w =
    store
      (store (store (store mem a (w % 256)) (a + 1) (w / 2 ^ 8 % 256)) (a + 2) (w / 2 ^ 16 % 256))
      (a + 3) (w / 2 ^ 24 % 256)

-- `stosl`: n times the word w from `a` on.
unfoldable pub stosl : ℕ → ℕ → ℕ → Memory → Memory
stosl zero a w mem = mem
stosl (suc n) a w mem = stosl n (a + 4) w (store_word mem a w)

-- `(c<<24)|(c<<16)|(c<<8)|c` for a byte c.
abbrev pub word_of : ℕ → ℕ
word_of c = c * 2 ^ 24 + c * 2 ^ 16 + c * 2 ^ 8 + c

unfoldable pub memset : ℕ → ℕ → ℕ → Memory → Memory
memset dst c n mem =
    if dst % 4 == 0 && n % 4 == 0
    then stosl (n / 4) dst (word_of (c % 256)) mem
    else stosb n dst (c % 256) mem

-- The difference of two bytes, as an int.
abbrev pub difference : ℕ → ℕ → ℤ
difference a b = if ltb a b then negsuc (b - a - 1) else pos (a - b)

unfoldable pub memcmp : ℕ → ℕ → ℕ → Memory → ℤ
memcmp v1 v2 zero mem = pos 0
memcmp v1 v2 (suc n) mem =
    let rest = memcmp (v1 + 1) (v2 + 1) n mem in
    if not (mem v1 == mem v2) then difference (mem v1) (mem v2) else rest

-- The loop of `memmove` that goes down, and the one that goes up.
unfoldable pub copy_down : ℕ → ℕ → ℕ → Memory → Memory
copy_down d s zero mem = mem
copy_down d s (suc n) mem = copy_down d s n (store mem (d + n) (mem (s + n)))

unfoldable pub copy_up : ℕ → ℕ → ℕ → Memory → Memory
copy_up d s zero mem = mem
copy_up d s (suc n) mem = copy_up (d + 1) (s + 1) n (store mem d (mem s))

unfoldable pub memmove : ℕ → ℕ → ℕ → Memory → Memory
memmove dst src n mem =
    if ltb src dst && ltb dst ((src + n) % u32)
    then copy_down dst src n mem
    else copy_up dst src n mem

unfoldable pub memcpy : ℕ → ℕ → ℕ → Memory → Memory
memcpy dst src n mem = memmove dst src n mem

unfoldable pub strncmp : ℕ → ℕ → ℕ → Memory → ℤ
strncmp p q zero mem = pos 0
strncmp p q (suc n) mem =
    let rest = strncmp (p + 1) (q + 1) n mem in
    if not (mem p == 0) && mem p == mem q then rest else difference (mem p) (mem q)

unfoldable pub strncpy : ℕ → ℕ → ℕ → Memory → Memory
strncpy s t zero mem = mem
strncpy s t (suc n) mem =
    let copied = store mem s (mem t) in
    let rest = strncpy (s + 1) (t + 1) n copied in
    if mem t == 0 then stosb n (s + 1) 0 copied else rest

-- The loop of `safestrcpy` with room for n bytes and a NUL, and the NUL. The loop has moved on past
-- a NUL that it copies.
unfoldable pub copy_text : ℕ → ℕ → ℕ → Memory → Memory
copy_text s t zero mem = store mem s 0
copy_text s t (suc n) mem =
    let copied = store mem s (mem t) in
    let rest = copy_text (s + 1) (t + 1) n copied in
    if mem t == 0 then store copied (s + 1) 0 else rest

unfoldable pub safestrcpy : ℕ → ℕ → ℤ → Memory → Memory
safestrcpy s t (negsuc n) mem = mem
safestrcpy s t (pos zero) mem = mem
safestrcpy s t (pos (suc n)) mem = copy_text s t n mem
