-- ===== src/Matrix/Bucket/Url.antt =====
-- The URL that tools/measure/bucketfs/exasol_cluster.py gives a node, as the client of
-- tools/measure/bucketfs/run_matrix.py reads it.
use Prim.Native.Char.{code}
use Prim.Native.String.append
use syncfs.Base.{
  arith, ◌<◌, ℕ, zero, suc, ◌/◌, ◌%◌, ◌≡◌, refl, ap, ◌∙◌, false, Option, some, String, ◌<>◌,
  nat_beq, ltb, Bool-cases, inl, inr,
}
use syncfs.Base.Decimal.{show, show_onto, digit, code-digit, value-show}
use syncfs.Peak.{◌>>=◌, some_digits, number}
use syncfs.Peak.Printed.{digits-show_onto, some_digits-show, show_onto-append}
use syncfs.ExaNet.{host_port, url_of}
use syncfs.Matrix.Bucket.{in_front, cut, whole, client, or_all, bucket_at}

-- A text in front of another, character by character.
push : String → String → String
push String.[] s = s
push (String.◌∷◌ c p) s = String.◌∷◌ c (push p s)

append-push : (p s : String) → p <> s ≡ push p s
unfolding push
append-push String.[] s = λ i. append.nil s i
append-push (String.◌∷◌ c p) s = (λ i. append.cons c p s i) ∙ ap (String.◌∷◌ c) (append-push p s)

no_slash : (n : ℕ) → n < 10 → nat_beq (code (digit n)) 47 ≡ false
no_slash n h = ground (arith, code-digit n h)

cut-show_onto :
    (fuel n : ℕ) (s d r : String)
    → cut 47 s ≡ some (d, r)
    → cut 47 (show_onto fuel n s) ≡ some (show_onto fuel n d, r)
unfolding show_onto
cut-show_onto zero n s d r h = h
cut-show_onto (suc fuel) n s d r h = elim (Bool-cases (ltb n 10)) [
  | inl small ↦ rw (small, no_slash (n % 10) (omega arith), h) refl
  | inr large ↦ rw large (
      cut-show_onto fuel (n / 10) (String.◌∷◌ (digit (n % 10)) s) (String.◌∷◌ (digit (n % 10)) d) r
        (rw (no_slash (n % 10) (omega arith), h) refl))
]

-- A number in front of a slash.
cut-show : (n : ℕ) (r : String) → cut 47 (show n <> push "/" r) ≡ some (show n, r)
unfolding show push
cut-show n r =
    ap (cut 47) (
      show_onto-append (suc n) n "" (push "/" r)
      ∙ ap (show_onto (suc n) n) (λ i. append.nil (push "/" r) i))
    ∙ cut-show_onto (suc n) n (push "/" r) "" r refl

number-of-show : (n : ℕ) → number (show n) ≡ some (show n, "")
unfolding number show
number-of-show n = ap some_digits (digits-show_onto (suc n) n "" "" "" refl) ∙ some_digits-show n ""

client-show :
    (passwd name host : String) (n : ℕ)
    → client passwd name (host, show n)
      ≡ some (record { host = host; port = n; bucket = name; auth = "w:" <> passwd })
client-show passwd name host n =
    ap
      (λ o. o >>= λ d. whole d >>= λ m.
        some (record { host = host; port = m; bucket = name; auth = "w:" <> passwd }))
      (number-of-show n)
    ∙ ap (λ m. some (record { host = host; port = m; bucket = name; auth = "w:" <> passwd }))
        (value-show n)

in_fronts : String → Option (String × String) → Option (String × String)
in_fronts String.[] o = o
in_fronts (String.◌∷◌ c p) o = in_front c (in_fronts p o)

-- From the URL that the cluster script gives a node the client reads the host, the node's own port and
-- the bucket.
pub bucket_at-url_of :
    (i : ℕ) (passwd : String)
    → bucket_at (url_of i) passwd
      ≡ some (record {
        host = "localhost";
        port = host_port i;
        bucket = "default";
        auth = "w:" <> passwd;
      })
unfolding bucket_at url_of push in_fronts
bucket_at-url_of i passwd =
    ap (λ u. bucket_at u passwd)
      (append-push "http://localhost:" (show (host_port i) <> "/default"))
    ∙ ap (λ o. in_fronts "localhost:" o >>= λ c. client passwd c.1 (or_all c.0 (cut 58 c.0)))
        (cut-show (host_port i) "default")
    ∙ client-show passwd "default" "localhost" (host_port i)
