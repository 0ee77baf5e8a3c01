-- ===== src/Util/Tests.antt =====
-- Concrete runs of the protocol helpers.
use rove.Base.{◌≡◌, refl, ◌↔◌, true, some, List, [], ◌∷◌, arith}
use rove.Base.{ℕ, suc, ◌≤◌, none, length, take, drop}
use rove.Base.Bytes.{ascii}
use rove.Base.Eq.{nat_eq, list_eq}
use rove.Base.Bytes.{ascii}
use rove.Base.Text.{Text, trim, strip_prefix, split_once}
use rove.Base.Result.{ok}
use rove.Base.Text.{starts_with}
use rove.Base.Decimal.{parse_unsigned, read_digits}
use rove.Util.{
  position, find_sub, head_end, read_http_head_with_remainder, split_host_port, host_of, http_2xx,
  constant_time_eq,
}
use rove.Util.Head.{concat, read_http_head_with_remainder-concat}
use rove.Util.Secrets.{constant_time_eq_iff}

-- The empty line is cut in two.
abbrev some_reads : List Text
some_reads = (b'G' ∷ 13 ∷ 10 ∷ []) ∷ (13 ∷ 10 ∷ b'x' ∷ []) ∷ (b'y' ∷ []) ∷ []

some_place : find_sub (concat some_reads) head_end ≡ some 1
unfolding find_sub position starts_with
some_place = refl

read_http_head_with_remainder-concat_example :
    (k : ℕ) × (find_sub (concat (take k some_reads)) head_end ≡ none)
    × (5 ≤ length (concat (take (suc k) some_reads)))
    × (read_http_head_with_remainder 5 some_reads
        ≡ ok (take 5 (concat (take (suc k) some_reads)), drop 5 (concat (take (suc k) some_reads))))
read_http_head_with_remainder-concat_example =
    read_http_head_with_remainder-concat 5 some_reads 1 ((λ e. cc), ((λ e. cc), ((λ e. cc), tt)))
      some_place (omega arith)

constant_time_eq_iff_example :
    (constant_time_eq (ascii "tok") (ascii "token") ≡ true) ↔ (ascii "tok" ≡ ascii "token")
constant_time_eq_iff_example = constant_time_eq_iff (ascii "tok") (ascii "token")

bracketed_host : split_host_port (ascii " [::1]:443") ≡ some (ascii "::1", 443)
unfolding split_host_port trim strip_prefix position starts_with parse_unsigned read_digits
    rove.Util.bracketed
bracketed_host = refl

plain_host : split_host_port (ascii "a.b:80") ≡ some (ascii "a.b", 80)
unfolding split_host_port trim strip_prefix split_once parse_unsigned read_digits
    rove.Util.last_colon rove.Util.rsplit_once
plain_host = refl
