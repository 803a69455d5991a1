-- ===== src/Tests/Clients.antt =====
-- A client built by New: options, and the keys they load.
use atome_fin_go_sdk.Base.{
  ℕ, ◌≡◌, refl, Option, none, some, List, [], ◌∷◌, inl, inr, leb, Bytes, codes, bytes_eq,
}
use atome_fin_go_sdk.Text.{trim_space}
use atome_fin_go_sdk.Errors.{plain_cause}
use atome_fin_go_sdk.Transport.Retry.{Jitter, validate}
use atome_fin_go_sdk.Transport.UserAgent.{Runtime, build_user_agent}
use atome_fin_go_sdk.Sign.Keys.{
  KeyLibrary, bits_of, long_enough, new_rsa2_verifier, load_public_cert_pem,
}
use atome_fin_go_sdk.Client.Config.{
  Platform, custom, keyed, policy_of, default_policy, default_config, trim_slashes,
}
use atome_fin_go_sdk.Client.Config.Options
use atome_fin_go_sdk.Client.Config.Build
use atome_fin_go_sdk.Client.Config.Build.{
  ClientOption, ConfiguredClient, new_client, final_policy, run_options, apply_option,
}
use atome_fin_go_sdk.Client.Config.Usable.{IsUsable, new_client-IsUsable}

-- The ratio is given in percent and adds nothing.
abbrev percent : Jitter
percent = record {
  Ratio = ℕ;
  is_zero = λ p. leb p 0;
  in_range = λ p. leb p 100;
  scale = λ p u d. d;
}

-- A key is its number of bits; every certificate holds one of 4096.
abbrev bits_library : KeyLibrary ℕ ℕ
bits_library = record {
  decode = λ s. some (record { kind = codes "CERTIFICATE"; headers = []; bytes = s });
  pkcs1_private = λ s. inr (some 2048);
  pkcs8_private = λ s. inr (some 2048);
  certificate = λ s. inr (some 4096);
  pkix_public = λ s. inr none;
  pkcs1_public = λ s. inl (plain_cause "asn1");
  private_bits = λ k. some k;
  public_bits = λ k. some k;
}

abbrev platform : Platform
platform = record {
  jitter = percent;
  PublicKey = ℕ;
  PrivateKey = ℕ;
  keys = bits_library;
  parse_url = λ u. inr (record { scheme = codes "https"; host = codes "g.id" });
  HttpClient = ℕ;
  Logger = ℕ;
  Observer = ℕ;
  Clock = ℕ;
  Generator = ℕ;
  Custom = Bytes;
  custom_key_id = λ id. id;
}

abbrev go : Runtime
go = record { version = codes "1.22"; os = codes "linux"; arch = codes "amd64" }

abbrev options : List (Option (ClientOption platform))
options =
    some (Build.key_id (codes "k2"))
    ∷ some (Build.signer (some (custom (codes "k1"))))
    ∷ some (Build.base_url (codes " https://g.id/v1/ "))
    ∷ some (Build.timeout 5000000000)
    ∷ some (Build.encrypt_atome_public_cert_pem (codes "cert"))
    ∷ some (Build.atome_public_key (some 2048))
    ∷ []

abbrev built : ConfiguredClient platform
built = record {
  config = record (default_config platform 20) {
    key_id = some (codes "k2");
    signer = some (custom (codes "k1"));
    base_url = codes "https://g.id/v1";
    timeout = 5000000000;
    encrypt_atome_pub = some 4096;
    verifier = some 2048;
  };
  base_url = codes "https://g.id/v1";
  signer = keyed (custom (codes "k1")) (codes "k2");
  retry = final_policy platform 20 (default_policy platform 20);
  user_agent = build_user_agent go (codes "0.6.0") [];
}

new_client-built : new_client platform go (codes "0.6.0") 20 options ≡ inr built
unfolding new_client run_options Options.and_then apply_option Options.with_signer Options.given_or
    Options.with_key_id default_config Options.with_base_url trim_space bytes_eq
    Options.with_timeout Options.with_encrypt_atome_public_cert_pem Options.loaded
    load_public_cert_pem Options.long_key Options.with_atome_public_key new_rsa2_verifier
    Build.final_client final_policy Build.finalize_config Build.finalized Build.keyed_signer
    Build.located Build.with_signer_set Options.parsed_base_url Options.unless_set default_policy
    policy_of trim_slashes bits_of long_enough validate
new_client-built = refl

new_client-IsUsable_example : IsUsable platform built
new_client-IsUsable_example =
    new_client-IsUsable platform go (codes "0.6.0") 20 refl options built new_client-built
