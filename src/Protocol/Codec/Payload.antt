-- ===== src/Protocol/Codec/Payload.antt =====
-- The payload of SET_CONFIGURATION that protocol/src/ldac_codec.c builds of its choice.
use native_ldac_xm5_windows.Prelude.{
  length, bits_and, byte_and, drop, take, ℕ, ◌*◌, ◌%◌, ◌≤◌, ◌<◌, ◌≡◌, refl, ◌⊎◌, inl, inr, true,
  List, ◌∷◌, arith,
}
use native_ldac_xm5_windows.Protocol.Codec.{
  codec_ok, LdacCapabilities, LdacConfiguration, sf_all, cm_all, choose_sample_rate,
  choose_channel_mode, build_codec_info, parse_codec_info, service_item, find_services,
  find_in_service_capabilities, choose_configuration, single_bit, build_set_configuration_payload,
}

chosen_rate :
    (rates hz : ℕ)
    → let c = choose_sample_rate rates hz in (c ≡ 0) ⊎ (c ≡ 4) ⊎ (c ≡ 8) ⊎ (c ≡ 16) ⊎ (c ≡ 32)
unfolding choose_sample_rate
chosen_rate rates hz = ground arith

chosen_mode :
    (modes : ℕ) → let c = choose_channel_mode modes in (c ≡ 0) ⊎ (c ≡ 1) ⊎ (c ≡ 2) ⊎ (c ≡ 4)
unfolding choose_channel_mode
chosen_mode modes = ground arith

pub OneRate : ℕ → Type 0
OneRate c = (c ≡ 4) ⊎ (c ≡ 8) ⊎ (c ≡ 16) ⊎ (c ≡ 32)

pub OneMode : ℕ → Type 0
OneMode c = (c ≡ 1) ⊎ (c ≡ 2) ⊎ (c ≡ 4)

chosen_bits :
    (local remote : LdacCapabilities) (hz : ℕ)
    → (choose_configuration local remote hz).0 ≡ codec_ok
    → OneRate (choose_configuration local remote hz).1.sample_rate
      × OneMode (choose_configuration local remote hz).1.channel_mode
unfolding choose_configuration OneRate OneMode
chosen_bits local remote hz h = ground (
  arith,
  chosen_rate (byte_and (byte_and local.sample_rates remote.sample_rates) sf_all) hz,
  chosen_mode (byte_and (byte_and local.channel_modes remote.channel_modes) cm_all),
)

-- A payload with one rate and one mode.
abbrev ReadBack : ℕ → ℕ → LdacConfiguration → LdacCapabilities → Type 0
ReadBack rs ls c out =
    let p = build_set_configuration_payload 16 rs ls c in
    (length p ≡ 16)
    × (find_in_service_capabilities (drop 2 p) out
        ≡ (codec_ok, record { sample_rates = c.sample_rate; channel_modes = c.channel_mode }))

OneRate-single_bit : (c : ℕ) → OneRate c → single_bit c sf_all ≡ true
unfolding OneRate bits_and
OneRate-single_bit c (inl e) = rw e refl
OneRate-single_bit c (inr (inl e)) = rw e refl
OneRate-single_bit c (inr (inr (inl e))) = rw e refl
OneRate-single_bit c (inr (inr (inr e))) = rw e refl

OneMode-single_bit : (c : ℕ) → OneMode c → single_bit c cm_all ≡ true
unfolding OneMode bits_and
OneMode-single_bit c (inl e) = rw e refl
OneMode-single_bit c (inr (inl e)) = rw e refl
OneMode-single_bit c (inr (inr e)) = rw e refl

-- The list behind the two endpoint bytes.
abbrev services_of : ℕ → ℕ → List ℕ
services_of rate mode = 0x01 ∷ 0x00 ∷ 0x07 ∷ 0x0A ∷ 0x00 ∷ 0xFF ∷ build_codec_info rate mode

payload_built :
    (rs ls rate mode : ℕ)
    → 0 < rs
    → rs ≤ 63
    → 0 < ls
    → ls ≤ 63
    → single_bit rate sf_all ≡ true
    → single_bit mode cm_all ≡ true
    → build_set_configuration_payload 16 rs ls (record { sample_rate = rate; channel_mode = mode })
      ≡ (rs * 4 % 256) ∷ (ls * 4 % 256) ∷ services_of rate mode
unfolding build_set_configuration_payload
payload_built rs ls rate mode r0 r1 l0 l1 one_rate one_mode = ground arith

services_read :
    (rate mode : ℕ) (out : LdacCapabilities)
    → single_bit rate sf_all ≡ true
    → single_bit mode cm_all ≡ true
    → find_in_service_capabilities (services_of rate mode) out
      ≡ (codec_ok, record { sample_rates = rate; channel_modes = mode })
unfolding find_in_service_capabilities find_services service_item parse_codec_info drop take
services_read rate mode out one_rate one_mode = ground arith

payload-ReadBack :
    (rs ls : ℕ) (c : LdacConfiguration) (out : LdacCapabilities)
    → 0 < rs
    → rs ≤ 63
    → 0 < ls
    → ls ≤ 63
    → OneRate c.sample_rate
    → OneMode c.channel_mode
    → ReadBack rs ls c out
unfolding drop
payload-ReadBack rs ls c out r0 r1 l0 l1 rate mode =
    let one_rate = OneRate-single_bit c.sample_rate rate in
    let one_mode = OneMode-single_bit c.channel_mode mode in
    rw (payload_built rs ls c.sample_rate c.channel_mode r0 r1 l0 l1 one_rate one_mode)
      (refl, services_read c.sample_rate c.channel_mode out one_rate one_mode)

-- What is chosen can be sent to a remote endpoint, and its 16 bytes are read back, behind the two
-- endpoint bytes, as the chosen rate and mode.
pub chosen_read_back :
    (local remote out : LdacCapabilities) (hz rs ls : ℕ)
    → 0 < rs
    → rs ≤ 63
    → 0 < ls
    → ls ≤ 63
    → (choose_configuration local remote hz).0 ≡ codec_ok
    → let c = (choose_configuration local remote hz).1 in
      let p = build_set_configuration_payload 16 rs ls c in
      (length p ≡ 16)
      × (find_in_service_capabilities (drop 2 p) out
          ≡ (codec_ok, record { sample_rates = c.sample_rate; channel_modes = c.channel_mode }))
chosen_read_back local remote out hz rs ls r0 r1 l0 l1 h =
    let (rate, mode) = chosen_bits local remote hz h in
    payload-ReadBack rs ls (choose_configuration local remote hz).1 out r0 r1 l0 l1 rate mode
