-- ===== src/Serial.antt =====
-- src/driver/uart_dma.c: the loop that sends a buffer in chunks. What the driver makes of a
-- call is an outcome: a list of outcomes that ends is a loop that still waits.
pub mod Chunks
use nano_vna_x.Base.{
  ℕ, zero, suc, ◌+◌, ◌-◌, Option, none, some, List, [], ◌∷◌, ◌++◌, ltb, ◌==◌, if◌then◌else◌, length,
  take, drop,
}
use nano_vna_x.Base.Options.{◌>>=◌}

-- MSG_OK, or another status with the number of frames that are left.
pub data Outcome : Type 0 where
  msg_ok : Outcome
  failed : ℕ → ℕ → Outcome

-- What a call leaves: the number of bytes, the last status, 0 for MSG_OK, and the
-- bytes that have gone through the driver.
pub record Transfer : Type 0 where
  pub count : ℕ
  pub last_status : ℕ
  pub bytes : List ℕ

abbrev pub chunk_max : ℕ
chunk_max = 65535

abbrev pub chunk_of : ℕ → ℕ
chunk_of left = if ltb chunk_max left then chunk_max else left

-- The loop, with the bytes from `buffer + transmitted` on.
unfoldable pub send_loop : List Outcome → ℕ → List ℕ → Option Transfer
send_loop outcomes transmitted [] =
    some (record { count = transmitted; last_status = 0; bytes = [] })
send_loop [] transmitted (b ∷ rest) = none
send_loop (msg_ok ∷ outcomes) transmitted (b ∷ rest) =
    let chunk = chunk_of (length (b ∷ rest)) in
    send_loop outcomes (transmitted + chunk) (drop chunk (b ∷ rest)) >>= λ t.
    some (record t { bytes = take chunk (b ∷ rest) ++ t.bytes })
send_loop (failed status frames ∷ outcomes) transmitted (b ∷ rest) =
    let chunk = chunk_of (length (b ∷ rest)) in
    some (record {
      count = transmitted + (chunk - frames);
      last_status = status;
      bytes = take (chunk - frames) (b ∷ rest);
    })

unfoldable pub uart_dma_send_buffer : List Outcome → List ℕ → Option Transfer
unfolding send_loop
uart_dma_send_buffer outcomes buffer = send_loop outcomes 0 buffer

unfoldable pub uart_stream_write : List Outcome → List ℕ → Option ℕ
unfolding uart_dma_send_buffer
uart_stream_write outcomes [] = some 0
uart_stream_write outcomes (b ∷ buffer) =
    uart_dma_send_buffer outcomes (b ∷ buffer) >>= λ t. some t.count

unfoldable pub uart_stream_put : List Outcome → ℕ → Option ℕ
unfolding uart_dma_send_buffer
uart_stream_put outcomes value =
    uart_dma_send_buffer outcomes (value ∷ []) >>= λ t. some t.last_status
