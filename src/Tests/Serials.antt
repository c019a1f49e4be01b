-- ===== src/Tests/Serials.antt =====
-- src/driver/uart_dma.c with a short buffer.
use nano_vna_x.Base.{◌≡◌, some, [], ◌∷◌, replicate, arith}
use nano_vna_x.Serial.{msg_ok, uart_dma_send_buffer}
use nano_vna_x.Serial.Chunks.{uart_dma_send_buffer-all}

uart_dma_send_buffer-all_example :
    uart_dma_send_buffer (replicate 2 msg_ok) (b'a' ∷ b'b' ∷ b'c' ∷ [])
    ≡ some (record { count = 3; last_status = 0; bytes = b'a' ∷ b'b' ∷ b'c' ∷ [] })
uart_dma_send_buffer-all_example =
    uart_dma_send_buffer-all 2 (b'a' ∷ b'b' ∷ b'c' ∷ []) (omega arith)
