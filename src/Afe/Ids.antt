-- ===== src/Afe/Ids.antt =====
-- AFE and channel identifiers of crates/daphne-sc-core/src/afe.rs: the board and PL numberings.
use daphne_sc.Prelude.{ℕ, zero, suc, ◌+◌, ◌*◌, ◌/◌, ◌%◌, ◌≤◌, ◌<◌, ◌≡◌, refl, arith}
use daphne_sc.Prelude.{le→leb, lt→leb_false, get_elem?, some, none, ok, err}
use daphne_sc.Afe.{AfeId, ChannelId, AfeValidationError, from_board, new_channel}
use daphne_sc.Afe.{afe_board_to_pl, afe_pl_to_board, afe_count, channel_count, channels_per_afe}

-- An identifier that `from_board` can make.
pub record IsAfe (a : AfeId) : Type 0 where
  pub board_lt : a.board < afe_count
  pub pl_lt : a.pl < afe_count
  pub to_pl : get_elem? afe_board_to_pl a.board ≡ some a.pl
  pub to_board : get_elem? afe_pl_to_board a.pl ≡ some a.board

-- A channel identifier that `new_channel` can make.
pub record IsChannel (c : ChannelId) : Type 0 where
  pub channel_lt : c.channel < channel_count
  pub position : c.afe.board * channels_per_afe + c.afe_channel ≡ c.channel
  pub afe_channel_lt : c.afe_channel < channels_per_afe
  pub afe : IsAfe c.afe

-- The inverse table undoes the first, entry by entry.
table_IsAfe :
    (b pl : ℕ) → get_elem? afe_board_to_pl b ≡ some pl → IsAfe (record { board = b; pl = pl })
table_IsAfe zero pl h = ground arith
table_IsAfe (suc zero) pl h = ground arith
table_IsAfe (suc (suc zero)) pl h = ground arith
table_IsAfe (suc (suc (suc zero))) pl h = ground arith
table_IsAfe (suc (suc (suc (suc zero)))) pl h = ground arith
table_IsAfe (suc (suc (suc (suc (suc b))))) pl h = cc

table_total : (b : ℕ) → b < afe_count → (pl : ℕ) × (get_elem? afe_board_to_pl b ≡ some pl)
table_total zero h = (0, refl)
table_total (suc zero) h = (4, refl)
table_total (suc (suc zero)) h = (3, refl)
table_total (suc (suc (suc zero))) h = (2, refl)
table_total (suc (suc (suc (suc zero)))) h = (1, refl)
table_total (suc (suc (suc (suc (suc b))))) h = absurd (omega arith)

table_end : (b : ℕ) → afe_count ≤ b → get_elem? afe_board_to_pl b ≡ none
table_end (suc (suc (suc (suc (suc b))))) h = refl
table_end zero h = absurd (omega arith)
table_end (suc zero) h = absurd (omega arith)
table_end (suc (suc zero)) h = absurd (omega arith)
table_end (suc (suc (suc zero))) h = absurd (omega arith)
table_end (suc (suc (suc (suc zero)))) h = absurd (omega arith)

-- Below AFE_COUNT `from_board` gives an identifier with that board number.
pub from_board_total :
    (b : ℕ) → b < afe_count → (a : AfeId) × (from_board b ≡ ok a) × (a.board ≡ b) × IsAfe a
unfolding from_board
from_board_total b h =
    let (pl, e) = table_total b h in (record { board = b; pl = pl }, rw e, refl, table_IsAfe b pl e)

pub from_board_err :
    (b : ℕ) → afe_count ≤ b → from_board b ≡ err (AfeValidationError.afe_out_of_range b)
unfolding from_board
from_board_err b h = rw (table_end b h)

-- `ChannelId::new` succeeds exactly below CHANNEL_COUNT. It then gives the channel number asked for,
-- on a board AFE and a position there from which the number is computed back, with the PL number of
-- that AFE in range and taken back to the board number by the inverse table. Any other number is
-- reported as out of range.
pub new_channel_lem :
    (n : ℕ)
    → (n < channel_count → (c : ChannelId) × (new_channel n ≡ ok c) × (c.channel ≡ n) × IsChannel c)
      × (channel_count ≤ n → new_channel n ≡ err (AfeValidationError.channel_out_of_range n))
unfolding new_channel
new_channel_lem n = (below, λ h. rw (le→leb _ _ h))
  where
    below :
        n < channel_count → (c : ChannelId) × (new_channel n ≡ ok c) × (c.channel ≡ n) × IsChannel c
    below h =
        let (a, e, on, valid) = from_board_total (n / channels_per_afe) (omega arith) in
        (
          record { channel = n; afe = a; afe_channel = n % channels_per_afe },
          rw (lt→leb_false _ _ h, e),
          refl,
          record {
            channel_lt = h;
            position = omega arith;
            afe_channel_lt = omega arith;
            afe = valid;
          },
        )
