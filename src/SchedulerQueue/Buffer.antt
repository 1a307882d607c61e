-- ===== src/SchedulerQueue/Buffer.antt =====
-- The circular buffer of runtime/gc/scheduler-queue.c: CircularBufferInit, CircularBufferClean,
-- growCircularBuffer, CircularBufferIsFull, CircularBufferIsEmpty, CircularBufferEnque,
-- CircularBufferDeque, and the counts and walks over it. The pointers are `uint32_t`, `size` is
-- a `size_t`; a key (an `objptr`) is a number that is only moved.
pub mod Inv
pub mod Refine
pub mod Grow
pub mod Walk
pub mod Tests
use multi_mlton.Prelude.{
  ℕ, zero, suc, ◌+◌, ◌-◌, ◌*◌, ◌/◌, ◌%◌, ◌^◌, ◌≤◌, ◌≡◌, Bool, true, false, Option, none, some, List,
  [], ◌++◌, ◌==◌, ltb, if◌then◌else◌, get_or, set, take, drop, length,
}
use multi_mlton.Align.{add_size, sub_size, mul_size, size_mod}

abbrev pub u32_mod : ℕ
u32_mod = 2 ^ 32

-- A `size_t` passed for an `int` parameter and stored in a `size_t` again.
abbrev pub through_int : ℕ → ℕ
through_int n = if ltb (n % u32_mod) (2 ^ 31) then n % u32_mod else size_mod - u32_mod + n % u32_mod

-- `memcpy` of n elements from index j of `src` to index i of `dst`.
abbrev pub memcpy {ℓ} : {A : Type ℓ} → List A → ℕ → List A → ℕ → ℕ → List A
memcpy dst i src j n = take i dst ++ (take n (drop j src) ++ drop (i + n) dst)

pub record CircularBuffer : Type 0 where
  pub write_pointer : ℕ
  pub read_pointer : ℕ
  pub size : ℕ
  pub keys : List ℕ

-- `sizeof (KeyType)` and `sizeof (CircularBuffer)`
abbrev pub key_size : ℕ
key_size = 8

abbrev pub buffer_header_size : ℕ
buffer_header_size = 16

-- What `malloc` does is not this program's: asked for a number of bytes it fails, or returns the
-- key slots of the block, with whatever they hold.
abbrev pub Malloc : Type 0
Malloc = ℕ → Option (List ℕ)

-- The documented behaviour that the buffers rely on: a block has the bytes that were asked for.
abbrev pub IsMalloc : Malloc → Type 0
IsMalloc malloc =
    (n : ℕ) (ks : List ℕ) → malloc n ≡ some ks → n ≤ buffer_header_size + key_size * length ks

unfoldable pub clean : CircularBuffer → CircularBuffer
clean que = record que { read_pointer = 0; write_pointer = 0 }

unfoldable pub is_full : CircularBuffer → Bool
is_full que = (que.write_pointer + 1) % u32_mod % que.size == que.read_pointer

unfoldable pub is_empty : CircularBuffer → Bool
is_empty que = que.read_pointer == que.write_pointer

-- The flag that is returned says whether the buffer was full; the write is made in any case.
unfoldable pub enque : CircularBuffer → ℕ → CircularBuffer × Bool
unfolding is_full
enque que k = (
  record que {
    keys = set que.keys que.write_pointer k;
    write_pointer = (que.write_pointer + 1) % u32_mod % que.size;
  },
  is_full que,
)

-- `none` is the answer TRUE (empty), with nothing stored through `pK`.
unfoldable pub deque : CircularBuffer → Option ℕ × CircularBuffer
unfolding is_empty
deque que = if is_empty que then (none, que) else (
  some (get_or que.keys que.read_pointer 0),
  record que { read_pointer = (que.read_pointer + 1) % u32_mod % que.size },
)

-- The number of keys: `(wp - rp + size) % size`, the difference in 32 bits, the sum in 64.
unfoldable pub count : CircularBuffer → ℕ
count que =
    add_size ((que.write_pointer + u32_mod - que.read_pointer) % u32_mod) que.size % que.size

module _ (malloc : Malloc) where
  -- The argument is the `int size`, as the `size_t` that it is converted to.
  unfoldable pub init : ℕ → Option CircularBuffer
  init size = elim (malloc (through_int (size * key_size + buffer_header_size))) [
    | none ↦ none
    | some ks ↦ some (record { write_pointer = 0; read_pointer = 0; size = size; keys = ks })
  ]

  -- `none`: there was no memory, and the C code then writes through a null pointer.
  unfoldable pub grow : CircularBuffer → Option CircularBuffer
  unfolding init count
  grow que = elim (init (through_int (mul_size que.size 2))) [
    | none ↦ none
    | some new ↦ some (record new {
      keys =
          if ltb que.read_pointer que.write_pointer
          then memcpy new.keys 0 que.keys que.read_pointer (que.write_pointer - que.read_pointer)
          else memcpy (memcpy new.keys 0 que.keys que.read_pointer (que.size - que.read_pointer))
              (que.size - que.read_pointer) que.keys 0 que.write_pointer;
      write_pointer = count que % u32_mod;
    })
  ]

-- `foreachObjptrInSQ` on one buffer: `while (rp != wp) { visit keys[rp]; rp = (rp + 1) % size }`.
-- The fuel bounds the rounds; `visit` returns what the callback leaves in the slot.
module _ (visit : ℕ → ℕ) where
  unfoldable pub walk : ℕ → ℕ → CircularBuffer → Option CircularBuffer
  walk zero rp que = none
  walk (suc fuel) rp que =
      let next =
        walk fuel ((rp + 1) % u32_mod % que.size)
          (record que { keys = set que.keys rp (visit (get_or que.keys rp 0)) }) in
      if rp == que.write_pointer then some que else next
