-- ===== src/Recorder/Circular.antt =====
-- src/recorder/RaspiVidBalls.c: the circular buffer of `encoder_buffer_callback`, which keeps the end of
-- the encoded stream, and the stream's header bytes beside it.
pub mod Bytewise
pub mod Tail
pub mod Header
pub mod SetUp
mod Tests
use foosball_tracker.Common.{
  ℕ, zero, suc, ◌+◌, ◌-◌, ◌%◌, ltb, if◌then◌else◌, Bool, true, false, ◌||◌, List, [], ◌∷◌, Option,
  none, some, length, take, drop, set?, ◌>>=◌,
}

-- The part of `PORT_USERDATA` that the circular buffer uses.
pub record Circle : Type 0 where
  pub cb_buff : List ℕ
  pub cb_len : ℕ
  pub cb_wptr : ℕ
  pub cb_wrap : Bool
  pub header_bytes : List ℕ
  pub header_wptr : ℕ

-- `memcpy` to the place `at` of a buffer; a byte behind its end is a fault.
unfoldable pub copy_into : List ℕ → (at : ℕ) → List ℕ → Option (List ℕ)
copy_into buff at [] = some buff
copy_into buff at (b ∷ bytes) = set? buff at b >>= λ buff1. copy_into buff1 (at + 1) bytes

-- `space_in_buff > buffer->length ? buffer->length : space_in_buff`
unfoldable pub copy_to_end : Circle → List ℕ → ℕ
copy_to_end c bytes =
    let space_in_buff = c.cb_len - c.cb_wptr in
    if ltb (length bytes) space_in_buff then length bytes else space_in_buff

-- Pushing the data of a buffer.
unfoldable pub push_data : Circle → List ℕ → Option Circle
unfolding copy_into copy_to_end
push_data c bytes = copy_into c.cb_buff c.cb_wptr (take (copy_to_end c bytes) bytes) >>= λ buff1.
    copy_into buff1 0 (drop (copy_to_end c bytes) bytes) >>= λ buff2. some (record c {
      cb_buff = buff2;
      cb_wrap = c.cb_wrap || ltb c.cb_len (c.cb_wptr + length bytes);
      cb_wptr = (c.cb_wptr + length bytes) % c.cb_len;
    })

-- Saving a buffer of header bytes, of which 29 fit; more are only logged.
unfoldable pub save_header : Circle → List ℕ → Option Circle
unfolding copy_into
save_header c bytes =
    if ltb 29 (c.header_wptr + length bytes)
    then some c
    else (copy_into c.header_bytes c.header_wptr bytes >>= λ saved.
        some (record c { header_bytes = saved; header_wptr = c.header_wptr + length bytes }))
