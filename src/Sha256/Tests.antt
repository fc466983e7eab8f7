-- ===== src/Sha256/Tests.antt =====
-- Known answers of the hash, and its laws at concrete inputs.
use distributed_file_grid.Prelude.{◌≡◌, refl, true, [], ◌++◌, arith, length, All}
use distributed_file_grid.Prelude.Key.{bytes_key, ℤ_key}
use distributed_file_grid.Prelude.Text.{str}
use distributed_file_grid.Sha256.{fresh, update, hex_words, sha256}
use distributed_file_grid.Sha256.Words.{transform}
use distributed_file_grid.Sha256.Stream.{feed, IsPartial, update-update}
use distributed_file_grid.Sha256.Padding.{padding, sha256-padding}
use distributed_file_grid.Sha256.Digits.{is_hex, sha256-hex}

empty_hashes : sha256 [] ≡ str "e3b0c44298fc1c149afbf4c8996fb92427ae41e4649b934ca495991b7852b855"
unfolding sha256 transform
empty_hashes = refl

abc_hashes :
    sha256 (str "abc") ≡ str "ba7816bf8f01cfea414140de5dae2223b00361a396177a9cb410ff61f20015ad"
unfolding sha256 transform
abc_hashes = refl

update-update_example :
    (update (update fresh (str "ab")) (str "c") ≡ update fresh (str "abc"))
    × IsPartial (update fresh (str "ab"))
update-update_example = update-update fresh (str "ab") (str "c") (omega arith)

sha256-padding_example : sha256 (str "abc") ≡ hex_words (feed fresh (str "abc" ++ padding 3)).words
sha256-padding_example = sha256-padding (str "abc")

sha256-hex_example :
    (length (sha256 (str "abc")) ≡ 64) × All (λ c. is_hex c ≡ true) (sha256 (str "abc"))
sha256-hex_example = sha256-hex (str "abc")
