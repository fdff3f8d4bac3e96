-- ===== src/Sync/Code/Tests.antt =====
-- One code from its generation to the end of its session, with identity for the hash and the
-- upper-casing that ASCII letters have.
use pocket_coder.Prelude.{
  map, take, ℕ, ◌+◌, ◌-◌, ◌<◌, false, ◌&&◌, List, [], ◌∷◌, some, ◌≡◌, ◌≢◌, refl, Str, codes, leb,
  if◌then◌else◌, nat_eq, list_eq, list_beq, arith,
}
use pocket_coder.Map.{get, put, del}
use pocket_coder.Result.{ok, err}
use pocket_coder.Sync.Errors.{code_used}
use pocket_coder.Sync.Code.{
  CodeStore, CodeEntry, Session, code_ttl, max_attempts, new_code_store, generate, lookup,
  lookup_hash, lookup_entry, finish, normalize_code, hash_code, is_busy, drop_old, register,
  live_session, draw_session, open_session,
}
use pocket_coder.Sync.Code.Text.{char_of, UppersCodes, IsCodeText, new_code, new_code-normalizes}
use pocket_coder.Sync.Code.Budget.{Hello, hello}
use pocket_coder.Sync.Code.Invariant.{IsOpenable}
use pocket_coder.Sync.Code.Reachable.{start, next, generated, single_code}
use pocket_coder.Sync.Code.Sessions.{finish-hello, generate-lookup}

-- unicode.ToUpper on ASCII.
upper : ℕ → ℕ
upper c = if leb b'a' c && leb c b'z' then c - 32 else c

upper_idem : (c : ℕ) → upper (upper c) ≡ upper c
unfolding upper
upper_idem c = ground arith

normalize_test : normalize_code upper (codes "o0-il") ≡ codes "0011"
unfolding normalize_code upper
normalize_test = refl

upper-codes : UppersCodes upper
unfolding upper
upper-codes = record { alphabet = refl; dash = refl }

abbrev random : List ℕ
random = 0 ∷ 33 ∷ 66 ∷ 99 ∷ 255 ∷ 5 ∷ 6 ∷ 7 ∷ 8 ∷ 9 ∷ 10 ∷ 11 ∷ 12 ∷ 13 ∷ 14 ∷ 15 ∷ []

new_code-normalizes_example :
    (code : Str) × (new_code random ≡ some code)
    × (normalize_code upper code ≡ map char_of (take 16 random))
    × IsCodeText (map char_of (take 16 random))
new_code-normalizes_example =
    new_code-normalizes upper upper-codes random (omega arith) (omega arith)

digest : Str → Str
digest s = b'#' ∷ s

digest-ne-nil : (s : Str) → digest s ≢ []
unfolding digest
digest-ne-nil s e = cc

abbrev plain : Str
plain = codes "AB12"

abbrev one_code : CodeStore
one_code = (generate digest upper (some plain) 0 (codes "o/r") new_code_store).1

abbrev visit : Str → Hello
visit project = record {
  now = 5;
  nonce = some (codes "n");
  id = some (codes "i");
  project = project;
  container = codes "c";
  dir = codes "d";
  branch = codes "main";
  commit = codes "abc";
}

abbrev key : Str
key = b'#' ∷ plain

abbrev entry : CodeEntry
entry = record {
  hash = key;
  plain = plain;
  project = codes "o/r";
  expires = code_ttl;
  attempts = 0;
  used = false;
  session_id = [];
  unknown = false;
}

abbrev ten_visits : List Hello
ten_visits = let v = visit (codes "x") in v ∷ v ∷ v ∷ v ∷ v ∷ v ∷ v ∷ v ∷ v ∷ v ∷ []

single_code_example :
    ((k : Str) (e : CodeEntry) → get k one_code.entries ≡ some e → e.attempts < max_attempts)
    × ((j k : Str) (d e : CodeEntry)
        → get j one_code.entries ≡ some d
        → get k one_code.entries ≡ some e
        → IsOpenable d
        → IsOpenable e
        → d.project ≡ e.project
        → j ≡ k)
single_code_example =
    single_code digest upper digest-ne-nil (next start (generated (some plain) 0 (codes "o/r")))

generate_test :
    generate digest upper (some plain) 0 (codes "o/r") new_code_store
    ≡ (ok (plain, code_ttl), one_code)
unfolding generate drop_old is_busy register hash_code normalize_code digest upper get put del
    list_beq new_code_store
generate_test = refl

spelled : normalize_code upper (codes "ab-i2") ≡ normalize_code upper plain
unfolding normalize_code upper
spelled = refl

generate-lookup_example :
    let g = visit (codes "o/r") in
    let r =
      lookup digest upper g.now g.nonce g.id
        (codes "ab-i2")
        g.project
        g.container
        g.dir
        g.branch
        g.commit
        one_code in
    (r.0 ≡ ok one_code.next)
    × ((sess : Session) × (get one_code.next r.1.heap ≡ some sess)
        × (sess.project ≡ codes "o/r")
        × (sess.code ≡ plain)
        × (sess.expires_at ≡ 0 + code_ttl)
        × (sess.finished ≡ false))
generate-lookup_example =
    generate-lookup digest upper plain (codes "ab-i2") (codes "n") (codes "i") 0 (plain, code_ttl)
      (visit (codes "o/r")) new_code_store one_code generate_test (λ e. cc) spelled (omega arith)
      refl refl

abbrev greeted : CodeStore
greeted = (hello key (visit (codes "o/r")) one_code).1

abbrev opened : CodeEntry
opened = record entry { session_id = codes "i" }

finish-hello_example :
    hello key (visit (codes "o/r")) (finish (codes "i") greeted)
    ≡ (err code_used, finish (codes "i") greeted)
unfolding lookup_hash lookup_entry live_session draw_session open_session generate drop_old is_busy
    register hash_code normalize_code digest upper get put del list_beq new_code_store
finish-hello_example =
    finish-hello key (codes "i") _ opened (visit (codes "o/r")) greeted refl refl refl refl refl
      (omega arith) refl
