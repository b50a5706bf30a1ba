-- ===== src/Tests/Refusing.antt =====
-- `syserr` on a small kernel, which counts its free descriptors.
use ece391_mp.Base.{
  ℕ, ◌-◌, ◌≡◌, inl, inr, refl, ap, Bool, true, false, List, [], ◌∷◌, ◌++◌, ok, ltb, ◌&&◌, ◌==◌,
  if◌then◌else◌, ℤ, pos, pos_part, minus_one, eqb_ℤ, get_or, take, arith,
}
use ece391_mp.Programs.{IsScreen}
use ece391_mp.Programs.Syserr.{TestOs, dot, select_test}
use ece391_mp.Programs.Syserr.Passed.{Refuses, IsStrict}
use ece391_mp.Programs.Syserr.Report.{passed_text, select_test-passes}
use ece391_mp.Programs.Syserr.Decided.{Answers, select_test-Answers}
use ece391_mp.Programs.Syserr.Decided.Check.{reads, writes}
use ece391_mp.Programs.Syserr.Decided.Test.{test_stdin_out}

-- The free descriptors, and what the terminal shows.
abbrev Desk : Type 0
Desk = ℕ × List ℕ

abbrev shown_on : Desk → List ℕ
shown_on w = w.1

abbrev free_of : Desk → ℕ
free_of w = w.0

-- `open` of a name: the directory, while a descriptor is free.
abbrev opens_dot : Desk → List ℕ → Bool
opens_dot w name = get_or name 0 0 == b'.' && ltb 0 (w.0)

abbrev strict_os : TestOs
strict_os = record {
  os = record {
    State = Desk;
    getargs = λ w n. (w, minus_one, []);
    open_file = λ w name. if opens_dot w name then ((w.0 - 1, w.1), pos 2) else (w, minus_one);
    read = λ w fd n. (w, minus_one, []);
    write = λ w fd bytes n.
        if eqb_ℤ fd (pos 1) then ((w.0, w.1 ++ take (pos_part n) bytes), n) else (w, minus_one);
    close_file = λ w fd. (w, minus_one);
    execute = λ w command. (w, minus_one);
  };
  vidmap = λ w address. (w, minus_one);
  call_sys = λ w num. (w, minus_one);
}

quiet : (w : Desk) → Refuses shown_on free_of w w minus_one
quiet w = record { returns = refl; shows_nothing = refl; same_free = refl }

write_other :
    (w : Desk) (fd : ℤ) (buf : List ℕ)
    → eqb_ℤ fd (pos 1) ≡ false
    → Refuses shown_on free_of w
        (strict_os.os.write w fd buf (pos 31)).0
        (strict_os.os.write w fd buf (pos 31)).1
write_other w fd buf other = rw other (quiet w)

open_other :
    (w : Desk) (name : List ℕ)
    → opens_dot w name ≡ false
    → Refuses shown_on free_of w (strict_os.os.open_file w name).0 (strict_os.os.open_file w name).1
open_other w name other = rw other (quiet w)

strict_os-IsStrict : IsStrict strict_os shown_on free_of
strict_os-IsStrict = record {
  bad_read = λ w fd h. quiet w;
  bad_write = λ w fd buf h.
      write_other w fd buf
        (elim h [ inl e ↦ ap (λ d. eqb_ℤ d (pos 1)) e | inr e ↦ ap (λ d. eqb_ℤ d (pos 1)) e ]);
  bad_close = λ w fd h. quiet w;
  unopened_read = λ w i f lo hi. quiet w;
  unopened_write = λ w i buf f lo hi. write_other w (pos i) buf (ground arith);
  unopened_close = λ w i f hi. quiet w;
  stdin_write = λ w buf. quiet w;
  stdout_read = λ w. quiet w;
  absent_open = λ w name h. open_other w name (elim h [
    | inl e ↦ ap (opens_dot w) e
    | inr h' ↦ elim h' [ inl e ↦ ap (opens_dot w) e | inr e ↦ ap (opens_dot w) e ]
  ]);
  dot_open = λ w n e.
      (let some_free : ltb 0 (w.0) ≡ true = ground (arith, e) in
        rw some_free ((λ z. cc), omega arith, refl));
  dot_full = λ w e. open_other w dot (ground (arith, e));
  close_shown = λ w fd. refl;
  foreign_vidmap = λ w address h. quiet w;
  unknown_call = λ w num h. quiet w;
}

strict_os-IsScreen : IsScreen (strict_os.os) shown_on
strict_os-IsScreen = record { write-appends = λ w bytes n le. refl }

strict_os-passes :
    (w' : Desk) × (select_test strict_os (6, []) [] b'3' ≡ ok (w', 0))
    × (shown_on w' ≡ [] ++ passed_text b'3')
strict_os-passes =
    select_test-passes strict_os shown_on free_of strict_os-IsScreen strict_os-IsStrict (6, []) []
      b'3' refl (omega arith) (omega arith)

-- A kernel that lets a program write to standard input.
abbrev lax_os : TestOs
lax_os = record strict_os {
  os = record (strict_os.os) { write = λ w fd bytes n. ((w.0, w.1 ++ take (pos_part n) bytes), n) };
}

lax_example :
    (w' : Desk) × (b : Bool) × (select_test lax_os (6, []) [] b'7' ≡ ok (w', if b then 0 else 2))
    × Answers lax_os (writes (pos 0) ∷ reads (pos 1) ∷ []) (((6, []), 0, [])) b
lax_example =
    select_test-Answers lax_os b'7' (writes (pos 0) ∷ reads (pos 1) ∷ []) (6, []) [] test_stdin_out
