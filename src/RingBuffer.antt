-- ===== src/RingBuffer.antt =====
-- rtsp-server/net/RingBuffer.h: a bounded queue in a vector. The counter is atomic in the code; one
-- thread pushes and one pops, and each operation is one step here.
mod Tests
pub mod Inv
pub mod Refine
use obs_rtspserver.Prelude.{
  ℕ, ◌+◌, ◌-◌, Bool, true, false, Option, none, some, List, ltb, ◌==◌, if◌then◌else◌, get_or, set,
  replicate,
}

pub record RingBuffer {ℓ} (A : Type ℓ) : Type ℓ where
  pub capacity : ℕ
  pub put_pos : ℕ
  pub get_pos : ℕ
  pub num_datas : ℕ
  pub buffer : List A

module _ {ℓ} {A : Type ℓ} where
  -- The constructor; the vector is filled with a default value.
  unfoldable pub ring_buffer_new : ℕ → A → RingBuffer A
  ring_buffer_new capacity x = record {
    capacity = capacity;
    put_pos = 0;
    get_pos = 0;
    num_datas = 0;
    buffer = replicate capacity x;
  }

  -- `Add`: the place after `pos`.
  unfoldable pub add : RingBuffer A → ℕ → ℕ
  add r pos = if pos + 1 == r.capacity then 0 else pos + 1

  -- `PushData`
  unfoldable pub push : A → RingBuffer A → RingBuffer A × Bool
  unfolding add
  push x r =
      if ltb r.num_datas r.capacity
      then (
        record r {
          buffer = set r.buffer r.put_pos x;
          put_pos = add r r.put_pos;
          num_datas = r.num_datas + 1;
        },
        true,
      )
      else (r, false)

  -- `Pop`; `old` is what the caller's variable holds.
  unfoldable pub pop : A → RingBuffer A → RingBuffer A × A × Bool
  unfolding add
  pop old r =
      if ltb 0 r.num_datas
      then (
        record r { get_pos = add r r.get_pos; num_datas = r.num_datas - 1 },
        get_or r.buffer r.get_pos old,
        true,
      )
      else (r, old, false)

  unfoldable pub ring_is_full : RingBuffer A → Bool
  ring_is_full r = r.num_datas == r.capacity

  unfoldable pub ring_is_empty : RingBuffer A → Bool
  ring_is_empty r = r.num_datas == 0
