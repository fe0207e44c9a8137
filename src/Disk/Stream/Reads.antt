-- ===== src/Disk/Stream/Reads.antt =====
-- What a read from a stream returns, for src/kernel/arch/x86/disk/stream.c.
use larva_os.Base.{
  ℕ, zero, suc, ◌+◌, ◌-◌, ◌*◌, ◌/◌, ◌%◌, ◌^◌, ◌≤◌, ◌<◌, ◌≡◌, refl, sym, ◌∙◌, ap, subst, arith, ◌⊎◌,
  inl, inr, u32, Ram, load32, store32, store32_frame, Option, some,
}
use larva_os.Disk.{Ports, disk_read_blocks}
use larva_os.Disk.Drives.{IsAta, disk_read_blocks_lem}
use larva_os.Disk.Stream.{copy_from, disk_stream_read}
use larva_os.Disk.Stream.Round.{
  byte_at, copy_from_lem, moved_frame, moved-StandsAt, moved-Holds, slt-small, slt-large,
  sector_of-small, offset_of-small, rounds_to-small, from_small, sub32-large, ltb-cases, Apart, Off,
  StandsAt, Holds,
}

module _ {Drive : Type 0} (ports : Ports Drive) (busy : ℕ) (image : ℕ → ℕ)
    (ata : IsAta ports busy image) (delay disk_address stream : ℕ) (patient : busy < delay)
    (tmp_buf : ℕ → ℕ) where
  -- The buffers on the stack of the next `fuel` calls have no byte of the caller's buffer or of
  -- the stream.
  abbrev pub FarFrom : ℕ → ℕ → ℕ → Type 0
  FarFrom fuel buf total =
      (k : ℕ)
      → k < fuel
      → (tmp_buf k + 512 < 2 ^ 32)
        × Apart (tmp_buf k) 512 buf total
        × Apart (tmp_buf k) 512 stream 8

  abbrev pub Elsewhere : ℕ → ℕ → ℕ → ℕ → Type 0
  Elsewhere fuel buf total q =
      ((k : ℕ) → k < fuel → Off (tmp_buf k) 512 q) × Off buf total q × Off stream 4 q

  -- The read has taken `total` bytes from `pos` on, and moved the stream behind them.
  abbrev pub HasRead : ℕ → Ram → ℕ → ℕ → ℕ → Option (ℕ × Drive × Ram) → Type 0
  HasRead fuel m buf pos total r =
      (d' : Drive) × (m' : Ram) × (r ≡ some (0, d', m'))
      × Holds image disk_address stream m' buf pos total
      × StandsAt image disk_address stream m' (pos + total)
      × ((q : ℕ) → Elsewhere fuel buf total q → m' q ≡ m q)

  abbrev after_round : Ram → ℕ → ℕ → ℕ → ℕ → Ram
  after_round m1 buf n tmp pos =
      store32 (copy_from n m1 buf (tmp + pos % 512)) stream
        (u32 (load32 (copy_from n m1 buf (tmp + pos % 512)) stream + n))

  -- The last sector of a read.
  read-last :
      (fuel : ℕ) (d d1 : Drive) (m m1 : Ram) (buf pos total : ℕ)
      → StandsAt image disk_address stream m pos
      → pos < 2 ^ 31
      → total ≤ 512
      → tmp_buf fuel + 512 < 2 ^ 32
      → disk_read_blocks ports delay d m disk_address disk_address (pos / 512) 1 (tmp_buf fuel)
        ≡ some (0, d1, m1)
      → disk_stream_read ports delay disk_address tmp_buf (suc fuel) d m stream buf total
        ≡ some (0, d1, after_round m1 buf total (tmp_buf fuel) pos)
  unfolding disk_stream_read
  read-last fuel d d1 m m1 buf pos total z low small room e =
      rw
        (
          slt-small total small,
          z.at_pos,
          z.at_disk,
          sector_of-small pos low,
          offset_of-small pos low,
          e,
          rounds_to-small total (omega arith),
          from_small (tmp_buf fuel) pos room,
        )
        refl

  -- A sector that more follow.
  read-more :
      (fuel : ℕ) (d d1 : Drive) (m m1 : Ram) (buf pos total : ℕ)
      → StandsAt image disk_address stream m pos
      → pos < 2 ^ 31
      → 512 < total
      → total < 2 ^ 31
      → tmp_buf fuel + 512 < 2 ^ 32
      → disk_read_blocks ports delay d m disk_address disk_address (pos / 512) 1 (tmp_buf fuel)
        ≡ some (0, d1, m1)
      → disk_stream_read ports delay disk_address tmp_buf (suc fuel) d m stream buf total
        ≡ disk_stream_read ports delay disk_address tmp_buf fuel d1
            (after_round m1 buf 512 (tmp_buf fuel) pos)
            stream
            (buf + 512)
            (total - 512)
  unfolding disk_stream_read
  read-more fuel d d1 m m1 buf pos total z low large fits room e =
      rw
        (
          slt-large total large fits,
          z.at_pos,
          z.at_disk,
          sector_of-small pos low,
          offset_of-small pos low,
          e,
          rounds_to-small 512 (omega arith),
          from_small (tmp_buf fuel) pos room,
          sub32-large total large fits,
        )
        refl

  -- The sectors after the first one add to it.
  read_join :
      (fuel : ℕ) (m m3 : Ram) (buf pos total : ℕ) (r : Option (ℕ × Drive × Ram))
      → 512 < total
      → FarFrom (suc fuel) buf total
      → Apart buf total stream 8
      → Holds image disk_address stream m3 buf pos 512
      → ((q : ℕ) → Off (tmp_buf fuel) 512 q → Off buf 512 q → Off stream 4 q → m3 q ≡ m q)
      → HasRead fuel m3 (buf + 512) (pos + 512) (total - 512) r
      → HasRead (suc fuel) m buf pos total r
  read_join fuel m m3 buf pos total r large tmps c first frame (d', m', e', holds, stands, kept) = (
    d',
    m',
    e',
    λ j h. held j h (ltb-cases j 512),
    subst (StandsAt image disk_address stream m') (omega arith) stands,
    λ q (off, off_buf, off_stream).
        kept q (λ k p. off k (omega arith), omega (arith, off_buf), off_stream)
        ∙ frame q (off fuel (omega arith)) (omega (arith, off_buf)) off_stream,
  )
    where
      held : (j : ℕ) → j < total → (j < 512) ⊎ (512 ≤ j) → m' (buf + j) ≡ image (pos + j)
      held j h (inl lt) =
          kept (buf + j)
            (λ k p. omega (arith, (tmps k (omega arith)).1), inl (omega arith), omega (arith, c))
          ∙ first j lt
      held j h (inr le) =
          ap m' (omega arith) ∙ holds (j - 512) (omega arith) ∙ ap image (omega arith)

  -- A read ends, returns 0 and stores the next `total` bytes of the disk in the buffer, if the
  -- position is at the start of a sector or the bytes lie in one sector. The position moves behind
  -- them, and the rest of the memory is unchanged but for the buffers on the stack.
  pub disk_stream_read_lem :
      (fuel : ℕ) (d : Drive) (m : Ram) (buf pos total : ℕ)
      → StandsAt image disk_address stream m pos
      → total ≤ fuel * 512
      → 0 < fuel
      → pos + total < 2 ^ 31
      → (pos % 512 ≡ 0) ⊎ (pos % 512 + total ≤ 512)
      → FarFrom fuel buf total
      → Apart buf total stream 8
      → HasRead fuel m buf pos total
          (disk_stream_read ports delay disk_address tmp_buf fuel d m stream buf total)
  disk_stream_read_lem zero d m buf pos total z enough some_fuel far ok tmps c =
      absurd (omega arith)
  disk_stream_read_lem (suc fuel) d m buf pos total z enough some_fuel far ok tmps c =
      let (d1, m1, e, read) =
        disk_read_blocks_lem ports busy image ata d m disk_address (pos / 512) (tmp_buf fuel) delay
          (omega arith) patient in
      let (room, a, b) = tmps fuel (omega arith) in
      elim (ltb-cases 512 total) [
        | inr small ↦
            let one : pos % 512 + total ≤ 512 = omega (arith, ok) in
            (
              d1,
              after_round m1 buf total (tmp_buf fuel) pos,
              read-last fuel d d1 m m1 buf pos total z (omega arith) small room e,
              moved-Holds image disk_address stream m m1 buf total (tmp_buf fuel) pos z read far one
                  a b c,
              moved-StandsAt image disk_address stream m m1 buf total (tmp_buf fuel) pos z read far
                  one a b c,
              λ q h.
                  moved_frame image disk_address stream m m1 buf total (tmp_buf fuel) pos z read far
                    one a b c q (h.0 fuel (omega arith)) h.1 h.2,
            )
        | inl large ↦
            let one : pos % 512 + 512 ≤ 512 = omega (arith, ok) in
            let a' : Apart (tmp_buf fuel) 512 buf 512 = omega (arith, a) in
            let c' : Apart buf 512 stream 8 = omega (arith, c) in
            let far' : pos + 512 < 2 ^ 31 = omega arith in
            let m3 = after_round m1 buf 512 (tmp_buf fuel) pos in
            let onward : StandsAt image disk_address stream m3 (pos + 512) =
              moved-StandsAt image disk_address stream m m1 buf 512 (tmp_buf fuel) pos z read far'
                one a' b c' in
            let rest =
              disk_stream_read_lem fuel d1 m3 (buf + 512) (pos + 512) (total - 512) onward
                (omega arith) (omega arith) (omega arith) (inl (omega (arith, ok)))
                (λ k h. (let (r, x, y) = tmps k (omega arith) in (r, omega (arith, x), y)))
                (omega (arith, c)) in
            subst (HasRead (suc fuel) m buf pos total)
              (sym
                (read-more fuel d d1 m m1 buf pos total z (omega arith) large (omega arith) room e))
              (read_join fuel m m3 buf pos total _ large tmps c
                (moved-Holds image disk_address stream m m1 buf 512 (tmp_buf fuel) pos z read far'
                  one a' b c')
                (moved_frame image disk_address stream m m1 buf 512 (tmp_buf fuel) pos z read far'
                  one a' b c')
                rest)
      ]

  -- A read of at most 512 bytes that cross the end of their sector returns 0 too, but the bytes
  -- past that end are those that lie behind the sector's buffer on the stack.
  pub disk_stream_read_beyond :
      (fuel : ℕ) (d : Drive) (m : Ram) (buf pos total j : ℕ)
      → StandsAt image disk_address stream m pos
      → total ≤ 512
      → pos < 2 ^ 31
      → tmp_buf fuel + 512 < 2 ^ 32
      → Apart (tmp_buf fuel) 1024 buf total
      → Apart buf total stream 8
      → j < total
      → 512 ≤ pos % 512 + j
      → (d' : Drive) × (m' : Ram) × (disk_stream_read ports delay disk_address tmp_buf
            (suc fuel)
            d
            m
            stream
            buf
            total
          ≡ some (0, d', m'))
        × (m' (buf + j) ≡ m (tmp_buf fuel + (pos % 512 + j)))
  disk_stream_read_beyond fuel d m buf pos total j z small low room a c h past =
      let (d1, m1, e, read) =
        disk_read_blocks_lem ports busy image ata d m disk_address (pos / 512) (tmp_buf fuel) delay
          (omega arith) patient in
      (
        d1,
        after_round m1 buf total (tmp_buf fuel) pos,
        read-last fuel d d1 m m1 buf pos total z low small room e,
        store32_frame (copy_from total m1 buf (tmp_buf fuel + pos % 512)) stream _ (buf + j)
              (omega (arith, c))
            ∙ copy_from_lem total m1 buf (tmp_buf fuel + pos % 512) (buf + j) (omega (arith, a))
            ∙ ground (
              arith,
              byte_at m1 (tmp_buf fuel + pos % 512 + (buf + j - buf))
                  (tmp_buf fuel + (pos % 512 + j)) (omega arith),
              read (tmp_buf fuel + (pos % 512 + j)),
            ),
      )
