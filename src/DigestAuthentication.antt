-- ===== src/DigestAuthentication.antt =====
-- rtsp-server/xop/DigestAuthentication.cpp. The hash `md5` is that of the platform or of a library.
use obs_rtspserver.Prelude.{ℕ, ◌+◌, ◌%◌, List, ◌++◌}
use obs_rtspserver.Text.{codes}
use obs_rtspserver.Text.Decimal.{print_number}

pub record DigestAuthentication : Type 0 where
  pub realm : List ℕ
  pub username : List ℕ
  pub password : List ℕ

module _ (md5 : List ℕ → List ℕ) where
  -- `GetNonce`; the numbers are the clock, cast to 32 bits, and the random one.
  unfoldable pub get_nonce : ℕ → ℕ → List ℕ
  unfolding print_number
  get_nonce timestamp rd = md5 (print_number ((timestamp + rd) % 4294967296))

  unfoldable pub get_response : DigestAuthentication → List ℕ → List ℕ → List ℕ → List ℕ
  get_response d nonce cmd url =
      let hex1 = md5 (d.username ++ (codes ":" ++ (d.realm ++ (codes ":" ++ d.password)))) in
      let hex2 = md5 (cmd ++ (codes ":" ++ url)) in
      md5 (hex1 ++ (codes ":" ++ (nonce ++ (codes ":" ++ hex2))))
