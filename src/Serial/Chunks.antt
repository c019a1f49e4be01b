-- ===== src/Serial/Chunks.antt =====
-- The bytes that go through the driver.
use nano_vna_x.Base.{
  ℕ, zero, suc, ◌+◌, ◌-◌, ◌*◌, ◌≤◌, ◌≡◌, refl, sym, ap, ap₂, subst, ◌∙◌, some, List, [], ◌∷◌, ◌++◌,
  append_assoc, length, length-drop, length-append, length-take, take-append-drop, take, drop,
  replicate, arith,
}
use nano_vna_x.Base.Options.{>>=-eq-some, >>=-some}
use nano_vna_x.Serial.{
  Outcome, msg_ok, failed, Transfer, chunk_max, chunk_of, send_loop, uart_dma_send_buffer,
}

-- What has gone through is the beginning of the data, and the count is where it ends.
pub record IsPrefix (start : ℕ) (buffer : List ℕ) (t : Transfer) : Type 0 where
  pub rest : List ℕ
  pub joins : t.bytes ++ rest ≡ buffer
  pub counts : t.count ≡ start + length t.bytes

some_eq : {t t' : Transfer} → some t ≡ some t' → t ≡ t'
some_eq e = cc

chunk_le : (n : ℕ) → chunk_of n ≤ n
chunk_le n = ground arith

less : (a b c : ℕ) → a ≤ c → a - b ≤ c
less a b c h = omega arith

taken : (n : ℕ) (xs : List ℕ) → n ≤ length xs → length (take n xs) ≡ n
taken n xs h = omega (arith, length-take n xs)

count_join :
    (start count n : ℕ) (xs ys : List ℕ)
    → length xs ≡ n
    → count ≡ start + n + length ys
    → count ≡ start + length (xs ++ ys)
count_join start count n xs ys e h = omega (arith, e, h, length-append xs ys)

count_part : (start n : ℕ) (xs : List ℕ) → length xs ≡ n → start + n ≡ start + length xs
count_part start n xs e = omega (arith, e)

send_loop-IsPrefix :
    (outcomes : List Outcome) (start : ℕ) (buffer : List ℕ) {t : Transfer}
    → send_loop outcomes start buffer ≡ some t
    → IsPrefix start buffer t
unfolding send_loop
send_loop-IsPrefix outcomes start [] e =
    subst (IsPrefix start []) (some_eq e) (record { rest = []; joins = refl; counts = omega arith })
send_loop-IsPrefix [] start (b ∷ buffer) e = cc
send_loop-IsPrefix (msg_ok ∷ outcomes) start (b ∷ buffer) e =
    let chunk = chunk_of (length (b ∷ buffer)) in
    let (t, later, ended) =
      >>=-eq-some (send_loop outcomes (start + chunk) (drop chunk (b ∷ buffer))) _ e in
    let h = send_loop-IsPrefix outcomes (start + chunk) (drop chunk (b ∷ buffer)) later in
    subst (IsPrefix start (b ∷ buffer)) (some_eq ended) (record {
      rest = h.rest;
      joins =
          append_assoc (take chunk (b ∷ buffer)) t.bytes h.rest
          ∙ ap (λ xs. take chunk (b ∷ buffer) ++ xs) h.joins
          ∙ take-append-drop chunk (b ∷ buffer);
      counts =
          count_join start t.count chunk (take chunk (b ∷ buffer)) t.bytes
            (taken chunk (b ∷ buffer) (chunk_le (length (b ∷ buffer)))) h.counts;
    })
send_loop-IsPrefix (failed status frames ∷ outcomes) start (b ∷ buffer) e =
    let chunk = chunk_of (length (b ∷ buffer)) in
    subst (IsPrefix start (b ∷ buffer)) (some_eq e) (record {
      rest = drop (chunk - frames) (b ∷ buffer);
      joins = take-append-drop (chunk - frames) (b ∷ buffer);
      counts = count_part start (chunk - frames) (take (chunk - frames) (b ∷ buffer)) (
          taken (chunk - frames) (b ∷ buffer)
            (less chunk frames (length (b ∷ buffer)) (chunk_le (length (b ∷ buffer)))));
    })

short_drop :
    (k n chunk : ℕ) → chunk ≡ chunk_of n → n ≤ chunk_max * suc k → n - chunk ≤ chunk_max * k
short_drop k n chunk e h = ground (arith, e)

total : (start chunk n : ℕ) → chunk ≤ n → start + chunk + (n - chunk) ≡ start + n
total start chunk n h = omega arith

send_loop-all :
    (k start : ℕ) (buffer : List ℕ)
    → length buffer ≤ chunk_max * k
    → send_loop (replicate k msg_ok) start buffer
      ≡ some (record { count = start + length buffer; last_status = 0; bytes = buffer })
unfolding send_loop
send_loop-all k start [] h =
    ap (λ count. some (record { count = count; last_status = 0; bytes = [] })) (omega arith)
send_loop-all zero start (b ∷ buffer) h = absurd (omega arith)
send_loop-all (suc k) start (b ∷ buffer) h =
    let n = length (b ∷ buffer) in
    let chunk = chunk_of n in
    let left = length-drop chunk (b ∷ buffer) in
    let sum : start + chunk + length (drop chunk (b ∷ buffer)) ≡ start + n =
      ap (λ d. start + chunk + d) left ∙ total start chunk n (chunk_le n) in
    >>=-some _
      (send_loop-all k (start + chunk) (drop chunk (b ∷ buffer))
        (subst (λ d. d ≤ chunk_max * k) (sym left) (short_drop k n chunk refl h)))
      (ap₂ (λ count bytes. some (record { count = count; last_status = 0; bytes = bytes })) sum
        (take-append-drop chunk (b ∷ buffer)))

-- A call that returns has sent the beginning of the buffer, and returns how many bytes that is.
uart_dma_send_buffer-IsPrefix :
    (outcomes : List Outcome) (buffer : List ℕ) {t : Transfer}
    → uart_dma_send_buffer outcomes buffer ≡ some t
    → IsPrefix 0 buffer t
unfolding uart_dma_send_buffer
uart_dma_send_buffer-IsPrefix outcomes buffer e = send_loop-IsPrefix outcomes 0 buffer e

-- If the driver takes as many chunks of 65535 bytes as the buffer needs, the call returns with the
-- status MSG_OK and the number of its bytes, and the whole buffer has been sent in order.
pub uart_dma_send_buffer-all :
    (k : ℕ) (buffer : List ℕ)
    → length buffer ≤ chunk_max * k
    → uart_dma_send_buffer (replicate k msg_ok) buffer
      ≡ some (record { count = length buffer; last_status = 0; bytes = buffer })
unfolding uart_dma_send_buffer
uart_dma_send_buffer-all k buffer h =
    send_loop-all k 0 buffer h
    ∙ ap (λ count. some (record { count = count; last_status = 0; bytes = buffer })) (omega arith)
