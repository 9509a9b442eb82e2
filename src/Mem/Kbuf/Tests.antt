-- ===== src/Mem/Kbuf/Tests.antt =====
-- Kernel buffers that hold values behind each other, with the room after them.
use moss.Common.{ℕ, ◌+◌, ◌==◌, ◌≡◌, refl, ap, List, [], ◌∷◌, ◌++◌, length, arith}
use moss.Mem.Kbuf.{take, drop}
use moss.Mem.Kbuf.RingBuf.{RingBuf}
use moss.Mem.Kbuf.Poll.{Poll, Spliced, poll_splice, poll_splice-Spliced}

record Buffer : Type 0 where
  held : List ℕ
  room : List ℕ

append_nil : (xs : List ℕ) → xs ++ [] ≡ xs
append_nil [] = refl
append_nil (x ∷ xs) = ap (λ ys. x ∷ ys) (append_nil xs)

no_values : (xs : List ℕ) → length xs ≡ 0 → xs ≡ []
no_values [] h = refl
no_values (x ∷ xs) h = absurd (omega (arith, h))

abbrev buffers : RingBuf ℕ
buffers = record {
  Rb = Buffer;
  contents = λ r. r.held;
  capacity = λ r. length r.held + length r.room;
  occupied_len = λ r. length r.held;
  vacant_len = λ r. length r.room;
  is_empty = λ r. length r.held == 0;
  is_full = λ r. length r.held + length r.room == length r.held;
  occupied_slices = λ r. (r.held, []);
  vacant_slices = λ r. (r.room, []);
  advance_read_index = λ n r. record { held = drop n r.held; room = r.room ++ take n r.held };
  write_vacant = λ h t r. record { held = r.held; room = h ++ t };
  advance_write_index = λ n r. record { held = r.held ++ take n r.room; room = drop n r.room };
  occupied_len_law = λ r. refl;
  vacant_len_law = λ r. refl;
  is_empty_law = λ r. refl;
  is_full_law = λ r. refl;
  occupied_all = λ r. append_nil r.held;
  occupied_first = λ r h. no_values r.held h;
  vacant_all = λ r. omega arith;
  vacant_first = λ r h. refl;
  read_law = λ n r h. refl;
  write_law = λ h t n r a b c. refl;
}

abbrev filled : Buffer
filled = record { held = 1 ∷ 2 ∷ 3 ∷ []; room = 0 ∷ [] }

abbrev half : Buffer
half = record { held = 7 ∷ []; room = 0 ∷ 0 ∷ [] }

poll_splice-Spliced_example : Spliced buffers 5 half filled (poll_splice buffers 5 half filled)
poll_splice-Spliced_example = poll_splice-Spliced buffers 5 half filled (omega arith)

-- two of three values fit
splice_full :
    poll_splice buffers 5 half filled
    ≡ Poll.ready 2
        (record { held = 7 ∷ 1 ∷ 2 ∷ []; room = [] })
        (record { held = 3 ∷ []; room = 0 ∷ 1 ∷ 2 ∷ [] })
unfolding poll_splice moss.Mem.Kbuf.Poll.move_data moss.Mem.Kbuf.copy_slices
splice_full = refl
