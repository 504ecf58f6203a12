-- ===== src/Tests/Adaptors.antt =====
-- The Cloud Foundry plugin on a scripted network, and the encryption with a toy cipher.
use mrmfactorytest.Prelude.{ℕ, suc, String, none, some, [], ◌∷◌, true, ◌≡◌, refl, arith, has_suffix}
use mrmfactorytest.Value.{end, field}
use mrmfactorytest.Adaptors.CfPlugin.{Http, CfContext, good, parse_and_validate_cf_context}
use mrmfactorytest.Adaptors.CfPlugin.Network.{token_url}
use mrmfactorytest.Adaptors.CfPlugin.Operation.{CfState, operate}
use mrmfactorytest.Adaptors.CfPlugin.Login.{
  Valid, token_url-has_suffix, parse_and_validate_cf_context-Valid,
}
use mrmfactorytest.Adaptors.CfPlugin.Cache.{Cached, KeepsOthers, operate-Settled}
use mrmfactorytest.Crypto.{Aead, encrypt, decrypt}
use mrmfactorytest.Crypto.Framing.{IsAead, decrypt-encrypt}

token_url_suffixed :
    has_suffix (token_url (λ url. none) "https://uaa.cf.example.com/") "/oauth/token" ≡ true
token_url_suffixed = token_url-has_suffix (λ url. none) "https://uaa.cf.example.com/"

abbrev context : CfContext
context = record {
  action = "stop";
  cf_api = "https://api.cf.example.com";
  app_guid = "a1";
  username = "u";
  password = "p";
  origin = "sap.ids";
}

context-accepted : parse_and_validate_cf_context (λ raw origin. some context) end ≡ good context
unfolding parse_and_validate_cf_context field
context-accepted = refl

context_checked : Valid context
context_checked =
    parse_and_validate_cf_context-Valid (λ raw origin. some context) end context context-accepted

-- The network counts its requests; each request for an action is refused.
abbrev network : Http
network = record {
  World = ℕ;
  get = λ url n. (some (record { status = 200; body = "" }), suc n);
  post_login = λ url user password origin n. (some (record { status = 200; body = "" }), suc n);
  post = λ url token n. (some (record { status = 401; body = "" }), suc n);
  url_path = λ url. none;
  decode_v3 = λ body. some ("https://uaa.cf.example.com", "");
  decode_v2 = λ body. none;
  decode_token = λ body. some "fresh";
}

abbrev stale : CfState network
stale = record { tokens = ("k", "stale") ∷ ("other", "kept") ∷ []; world = 0 }

operate-Settled_example :
    let r = operate network 1 context "k" stale in
    Cached network "k" r.0 r.1 × KeepsOthers network "k" stale r.1
operate-Settled_example = operate-Settled network 1 context "k" stale

-- A cipher that changes nothing.
abbrev plain_cipher : Aead
plain_cipher = record {
  nonce_size = 2;
  seal = λ nonce plaintext. plaintext;
  unseal = λ nonce ciphertext. some ciphertext;
}

plain_cipher-IsAead : IsAead plain_cipher
plain_cipher-IsAead = record {
  unseal_seal = λ nonce plaintext size. refl;
  seal_bytes = λ nonce plaintext bytes. bytes;
}

decrypt-encrypt_example :
    (text : String) × (encrypt
        (λ key. some plain_cipher)
        (λ n. some (7 ∷ 255 ∷ []))
        (1 ∷ [])
        (72 ∷ 105 ∷ [])
      ≡ some text)
    × (decrypt (λ key. some plain_cipher) (1 ∷ []) text ≡ some (72 ∷ 105 ∷ []))
decrypt-encrypt_example =
    decrypt-encrypt (λ key. some plain_cipher) (1 ∷ []) plain_cipher plain_cipher-IsAead
      (λ n. some (7 ∷ 255 ∷ [])) (7 ∷ 255 ∷ []) (72 ∷ 105 ∷ []) refl refl refl
      (omega arith, (omega arith, tt)) (omega arith, (omega arith, tt))
