-- ===== src/Protocol/Codec/Choice.antt =====
-- What protocol/src/ldac_codec.c chooses of two sets of capabilities.
use native_ldac_xm5_windows.Prelude.{
  ◌==◌, if◌then◌else◌, byte_and, ℕ, Bool, not, ◌&&◌, ◌||◌, List, [], ◌∷◌,
}
use native_ldac_xm5_windows.Protocol.Codec.{
  CodecStatus, codec_ok, codec_unsupported, LdacCapabilities, LdacConfiguration, sf_44100, sf_48000,
  sf_88200, sf_96000, sf_all, cm_stereo, cm_dual, cm_mono, cm_all, preferred_bit,
}

abbrev pub has : ℕ → ℕ → Bool
has mask b = not (byte_and mask b == 0)

-- A bit that both sides have.
abbrev pub common : ℕ → ℕ → ℕ → Bool
common local remote b = has local b && has remote b

abbrev common_rates : ℕ → ℕ → ℕ
common_rates l r = byte_and (byte_and l r) sf_all

abbrev common_modes : ℕ → ℕ → ℕ
common_modes l r = byte_and (byte_and l r) cm_all

-- The first bit of a list that both sides have, or 0.
unfoldable pub first_common : List ℕ → ℕ → ℕ → ℕ
first_common [] l r = 0
first_common (b ∷ bs) l r = if common l r b then b else first_common bs l r

-- The rates in the order of the choice, and the channel modes.
abbrev pub rate_order : ℕ → List ℕ
rate_order hz = preferred_bit hz ∷ sf_96000 ∷ sf_88200 ∷ sf_48000 ∷ sf_44100 ∷ []

abbrev pub mode_order : List ℕ
mode_order = cm_stereo ∷ cm_dual ∷ cm_mono ∷ []

-- The reference: the first rate and the first mode in order that both sides have.
abbrev pub reference_configuration :
    LdacCapabilities → LdacCapabilities → ℕ → CodecStatus × LdacConfiguration
reference_configuration local remote hz =
    let rate = first_common (rate_order hz) local.sample_rates remote.sample_rates in
    let mode = first_common mode_order local.channel_modes remote.channel_modes in
    if rate == 0 || mode == 0
    then (codec_unsupported, record { sample_rate = 0; channel_mode = 0 })
    else (codec_ok, record { sample_rate = rate; channel_mode = mode })
