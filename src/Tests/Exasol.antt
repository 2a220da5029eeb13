-- ===== src/Tests/Exasol.antt =====
-- Bringing a BucketFS cluster up on the machine.
use syncfs.Base.{◌+◌, ◌≡◌, refl, true, arith, ltb, if◌then◌else◌, none, some}
use syncfs.Base.Decimal.{show}
use syncfs.Base.Exec.{ok, raised, runtime_error, Ensures}
use syncfs.ExaConf.{read_passwords, match_line, search, search_from}
use syncfs.Exasol.{Files, up_exa}
use syncfs.ExaNet.{host_port, url_of}
use syncfs.Exasol.Up.{IsSwift, Answers, up_exa-Answers}
use syncfs.Tests.Machine.{machine, clock}
use syncfs.Tests.Cluster.{podman, prompt, root}

-- Every node answers from time 50 on.
abbrev pub files : Files machine
files = record {
  exists = λ p s. (true, s);
  rmtree = λ p s. (ok tt, s + 1);
  copy = λ a b s. (ok tt, s);
  read_text = λ p s. (ok "  ReadPasswd = cjE=\n  WritePasswd = dzI=\n", s);
  http_code = λ u s. ((if ltb s 50 then "000" else "404"), s);
  b64decode = λ t. ok t;
}

abbrev pub swift : IsSwift clock files
swift = record {
  exists-le-now = λ p s. omega arith;
  rmtree-le-now = λ p s. omega arith;
  copy-le-now = λ a b s. omega arith;
  read-le-now = λ p s. omega arith;
  http-le-now = λ u s. omega arith;
}

up_exa-Answers_example :
    Ensures
      (Answers machine clock podman prompt files swift root 3 2)
      (up_exa machine podman files root 600 2 30000 500 3)
up_exa-Answers_example =
    up_exa-Answers machine clock podman prompt files swift root 600 2 30000 500 3 (omega arith)

passwords_run :
    read_passwords files.b64decode "EXAConf" "  ReadPasswd = cjE=\n  WritePasswd = dzI=\n"
    ≡ ok (record { read = "cjE="; write = "dzI=" })
unfolding read_passwords match_line search search_from
passwords_run = refl

no_password :
    read_passwords files.b64decode "EXAConf" "  ReadPasswd = cjE=\n  WritePasswd = a b\n"
    ≡ raised (runtime_error "no WritePasswd in EXAConf")
unfolding read_passwords match_line search search_from
no_password = refl

port_run : url_of 13 ≡ "http://localhost:2602/default"
unfolding url_of host_port show
port_run = refl

conf_run :
    (search "WritePasswd"
      "[BucketFS : b]\n    Port = 1\n    ReadPasswd = cjE=\n    WritePasswd =  dzI= \n")
    ≡ some "dzI="
unfolding search search_from match_line
conf_run = refl

other_run : (search "WritePasswd" "XWritePasswd = a\nWritePasswd = a b\n") ≡ none
unfolding search search_from match_line
other_run = refl
