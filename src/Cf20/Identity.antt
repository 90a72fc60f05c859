-- ===== src/Cf20/Identity.antt =====
-- kernel/drivers/block/cf20/cf20_cmds.c: the identity of a card, and the setting of its features.
--
-- The card says when it is ready: the loops that wait for it run on fuel, and yield none when the
-- fuel ends first. `can_alloc` says whether malloc gives the buffer.
pub mod Texts
use i80k.Base.{
  ℕ, zero, suc, ◌+◌, ◌*◌, ◌/◌, ◌^◌, Bool, true, false, not, ◌&&◌, ◌||◌, Option, none, some, ◌==◌,
  if◌then◌else◌, bit_and, bit_or,
}
use i80k.Base.Word.{u8, u32}
use i80k.Cf20.{Bus, Private, Memory, poke, read_bytes}

-- Characters by their index, from 0.
abbrev pub Text : Type 0
Text = ℕ → ℕ

pub record Cf20Identity : Type 0 where
  pub default_cyl_count : ℕ
  pub default_heads_count : ℕ
  pub default_sec_per_track : ℕ
  pub sec_per_card : ℕ
  pub serial : Text
  pub ecc_bytes_count : ℕ
  pub firmware : Text
  pub model : Text
  pub max_sec_count : ℕ
  pub capabilities : ℕ
  pub pio_timing_mode : ℕ
  pub field_validity : ℕ
  pub curr_cyl_count : ℕ
  pub curr_heads_count : ℕ
  pub curr_sec_per_track : ℕ
  pub cur_capacity : ℕ
  pub multiple_sector_setting : ℕ
  pub total_sec_count : ℕ
  pub advanced_pio_modes : ℕ
  pub min_pio_xfer_cycle_wo_fc : ℕ
  pub min_pio_xfer_cycle_with_fc : ℕ
  pub feat_cmd_supported : ℕ × ℕ × ℕ
  pub feat_cmd_enabled : ℕ × ℕ × ℕ
  pub security_erase_time : ℕ
  pub enhanced_security_erase_time : ℕ
  pub adv_pm_value : ℕ
  pub security_status : ℕ
  pub power_req : ℕ
  pub key_mgmt_schemes : ℕ

-- A 16-bit word of the buffer, whose lower byte is first.
abbrev pub word : Memory → ℕ → ℕ
word b i = b (2 * i) + b (2 * i + 1) * 2 ^ 8

-- The copy of as many words from the k-th on to the i-th character on, lower byte first.
pub copy_words : ℕ → ℕ → ℕ → Memory → Text → Text
copy_words zero i k b text = text
copy_words (suc n) i k b text =
    copy_words n (i + 2) (k + 1) b
      (poke (i + 1) (u8 (word b k / 2 ^ 8)) (poke i (u8 (word b k)) text))

-- The same with the upper byte first.
pub copy_swapped : ℕ → ℕ → ℕ → Memory → Text → Text
copy_swapped zero i k b text = text
copy_swapped (suc n) i k b text =
    copy_swapped n (i + 2) (k + 1) b
      (poke i (u8 (word b k / 2 ^ 8)) (poke (i + 1) (u8 (word b k)) text))

-- `c && c != ' '`
abbrev pub is_mark : ℕ → Bool
is_mark c = not (c == 0) && not (c == 32)

-- The loop that removes trailing spaces, on the characters below the first argument.
pub trim : ℕ → Text → Text
trim zero text = text
trim (suc i) text = let rest = trim i (poke i 0 text) in if is_mark (text i) then text else rest

abbrev no_text : Text
no_text i = 0

pub serial_of : Memory → Text
unfolding copy_words trim
serial_of b = trim 20 (poke 20 0 (copy_words 10 0 10 b no_text))

pub firmware_of : Memory → Text
unfolding copy_swapped trim
firmware_of b = trim 8 (poke 8 0 (copy_swapped 4 0 23 b no_text))

pub model_of : Memory → Text
unfolding copy_swapped trim
model_of b = trim 40 (poke 40 0 (copy_swapped 20 0 27 b no_text))

abbrev cf20_signature : ℕ
cf20_signature = 0x848a

abbrev pub identity_of : Memory → Cf20Identity
identity_of b = record {
  default_cyl_count = word b 1;
  default_heads_count = word b 3;
  default_sec_per_track = word b 6;
  sec_per_card = bit_or (u32 (word b 7 * 2 ^ 16)) (word b 8);
  serial = serial_of b;
  ecc_bytes_count = word b 22;
  firmware = firmware_of b;
  model = model_of b;
  max_sec_count = word b 47;
  capabilities = word b 49;
  pio_timing_mode = word b 51;
  field_validity = word b 53;
  curr_cyl_count = word b 54;
  curr_heads_count = word b 55;
  curr_sec_per_track = word b 56;
  cur_capacity = bit_or (word b 57) (u32 (word b 58 * 2 ^ 16));
  multiple_sector_setting = word b 59;
  total_sec_count = bit_or (word b 60) (u32 (word b 61 * 2 ^ 16));
  advanced_pio_modes = word b 64;
  min_pio_xfer_cycle_wo_fc = word b 67;
  min_pio_xfer_cycle_with_fc = word b 68;
  feat_cmd_supported = (word b 82, word b 83, word b 84);
  feat_cmd_enabled = (word b 85, word b 86, word b 87);
  security_erase_time = word b 89;
  enhanced_security_erase_time = word b 90;
  adv_pm_value = word b 91;
  security_status = word b 128;
  power_req = word b 160;
  key_mgmt_schemes = word b 162;
}

-- The identity, if the buffer starts with the signature.
pub identified : Memory → Option Cf20Identity
unfolding serial_of firmware_of model_of
identified b = if word b 0 == cf20_signature then some (identity_of b) else none

module _ {S : Type 0} (io : Bus S) (pdev : Private) where
  -- `while (inb(status) & SR_BSY);`
  pub wait_ready : ℕ → S → Option S
  wait_ready zero s = none
  wait_ready (suc fuel) s =
      let (v, s') = io.inb pdev.regs.status s in
      let rest = wait_ready fuel s' in if bit_and v (2 ^ 7) == 0 then some s' else rest

  abbrev feature_result : Option S → Option (Bool × S)
  feature_result none = none
  feature_result (some s) =
      let (byte, s1) = io.inb pdev.regs.status s in
      let (why, s2) = io.inb pdev.regs.error s1 in
      if bit_and byte (2 ^ 2) == 0
      then some (true, s1)
      else some (if bit_and why (2 ^ 2) == 0 then true else false, s2)

  pub cf20_set_interrupts : Bool → S → S
  cf20_set_interrupts true s = io.outb pdev.regs.dev_ctrl 0 s
  cf20_set_interrupts false s = io.outb pdev.regs.dev_ctrl (2 ^ 1) s

  pub cf20_set_feature : ℕ → ℕ → ℕ → S → Option (Bool × S)
  unfolding wait_ready
  cf20_set_feature fuel feature config s =
      let s1 = io.outb pdev.regs.features feature s in
      let s2 = io.outb pdev.regs.sector_count config s1 in
      let s3 = io.outb pdev.regs.card_head 0xa0 s2 in
      feature_result (wait_ready fuel (io.outb pdev.regs.cmd 0xef s3))

  abbrev identify_result : Option S → Option (Option Cf20Identity × S)
  identify_result none = none
  identify_result (some s) =
      let (b, s') = read_bytes io pdev pdev.sector_sz 0 ((λ i. 0), s) in some (identified b, s')

  pub cf20_identify : ℕ → Bool → S → Option (Option Cf20Identity × S)
  unfolding wait_ready identified
  cf20_identify fuel false s = some (none, s)
  cf20_identify fuel true s =
      let s1 = io.outb pdev.regs.card_head 0xa0 s in
      identify_result (wait_ready fuel (io.outb pdev.regs.cmd 0xec s1))
