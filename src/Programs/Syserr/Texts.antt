-- ===== src/Programs/Syserr/Texts.antt =====
-- The texts of syscalls/ece391syserr.c
use ece391_mp.Base.{ℕ, List, [], ◌∷◌}

abbrev pub read_fail : List ℕ
read_fail = b'r' ∷ b'e' ∷ b'a' ∷ b'd' ∷ 32 ∷ b'f' ∷ b'a' ∷ b'i' ∷ b'l' ∷ 10 ∷ 0 ∷ []

abbrev pub write_fail : List ℕ
write_fail = b'w' ∷ b'r' ∷ b'i' ∷ b't' ∷ b'e' ∷ 32 ∷ b'f' ∷ b'a' ∷ b'i' ∷ b'l' ∷ 10 ∷ 0 ∷ []

abbrev pub close_fail : List ℕ
close_fail = b'c' ∷ b'l' ∷ b'o' ∷ b's' ∷ b'e' ∷ 32 ∷ b'f' ∷ b'a' ∷ b'i' ∷ b'l' ∷ 10 ∷ 0 ∷ []

abbrev pub neg_fd_fail : List ℕ
neg_fd_fail =
    b'e' ∷ b'r' ∷ b'r' ∷ b'_' ∷ b'n' ∷ b'e' ∷ b'g' ∷ b'_' ∷ b'f' ∷ b'd' ∷ b':' ∷ 32 ∷ b'F' ∷ b'A'
    ∷ b'I' ∷ b'L' ∷ 10 ∷ 0 ∷ []

abbrev pub neg_fd_pass : List ℕ
neg_fd_pass =
    b'e' ∷ b'r' ∷ b'r' ∷ b'_' ∷ b'n' ∷ b'e' ∷ b'g' ∷ b'_' ∷ b'f' ∷ b'd' ∷ b':' ∷ 32 ∷ b'P' ∷ b'A'
    ∷ b'S' ∷ b'S' ∷ 10 ∷ 0 ∷ []

abbrev pub big_fd_fail : List ℕ
big_fd_fail =
    b'e' ∷ b'r' ∷ b'r' ∷ b'_' ∷ b'b' ∷ b'i' ∷ b'g' ∷ b'_' ∷ b'f' ∷ b'd' ∷ b':' ∷ 32 ∷ b'F' ∷ b'A'
    ∷ b'I' ∷ b'L' ∷ 10 ∷ 0 ∷ []

abbrev pub big_fd_pass : List ℕ
big_fd_pass =
    b'e' ∷ b'r' ∷ b'r' ∷ b'_' ∷ b'b' ∷ b'i' ∷ b'g' ∷ b'_' ∷ b'f' ∷ b'd' ∷ b':' ∷ 32 ∷ b'P' ∷ b'A'
    ∷ b'S' ∷ b'S' ∷ 10 ∷ 0 ∷ []

abbrev pub open_lots_fail : List ℕ
open_lots_fail =
    b'e' ∷ b'r' ∷ b'r' ∷ b'_' ∷ b'o' ∷ b'p' ∷ b'e' ∷ b'n' ∷ b'_' ∷ b'l' ∷ b'o' ∷ b't' ∷ b's' ∷ b':'
    ∷ 32 ∷ b'F' ∷ b'A' ∷ b'I' ∷ b'L' ∷ 10 ∷ 0 ∷ []

abbrev pub open_lots_pass : List ℕ
open_lots_pass =
    b'e' ∷ b'r' ∷ b'r' ∷ b'_' ∷ b'o' ∷ b'p' ∷ b'e' ∷ b'n' ∷ b'_' ∷ b'l' ∷ b'o' ∷ b't' ∷ b's' ∷ b':'
    ∷ 32 ∷ b'P' ∷ b'A' ∷ b'S' ∷ b'S' ∷ 10 ∷ 0 ∷ []

abbrev pub helloo_fail : List ℕ
helloo_fail =
    39 ∷ b'h' ∷ b'e' ∷ b'l' ∷ b'l' ∷ b'o' ∷ b'o' ∷ 39 ∷ 32 ∷ b'f' ∷ b'a' ∷ b'i' ∷ b'l' ∷ 10 ∷ 0 ∷ []

abbrev pub shel_fail : List ℕ
shel_fail = 39 ∷ b's' ∷ b'h' ∷ b'e' ∷ b'l' ∷ 39 ∷ 32 ∷ b'f' ∷ b'a' ∷ b'i' ∷ b'l' ∷ 10 ∷ 0 ∷ []

abbrev pub empty_fail : List ℕ
empty_fail =
    b'e' ∷ b'm' ∷ b'p' ∷ b't' ∷ b'y' ∷ 32 ∷ b's' ∷ b't' ∷ b'r' ∷ b'i' ∷ b'n' ∷ b'g' ∷ 32 ∷ b'f'
    ∷ b'a' ∷ b'i' ∷ b'l' ∷ 10 ∷ 0 ∷ []

abbrev pub open_fail : List ℕ
open_fail =
    b'e' ∷ b'r' ∷ b'r' ∷ b'_' ∷ b'o' ∷ b'p' ∷ b'e' ∷ b'n' ∷ b':' ∷ 32 ∷ b'F' ∷ b'A' ∷ b'I' ∷ b'L'
    ∷ 10 ∷ 0 ∷ []

abbrev pub open_pass : List ℕ
open_pass =
    b'e' ∷ b'r' ∷ b'r' ∷ b'_' ∷ b'o' ∷ b'p' ∷ b'e' ∷ b'n' ∷ b':' ∷ 32 ∷ b'P' ∷ b'A' ∷ b'S' ∷ b'S'
    ∷ 10 ∷ 0 ∷ []

abbrev pub close_unopened : List ℕ
close_unopened =
    b'c' ∷ b'l' ∷ b'o' ∷ b's' ∷ b'e' ∷ 32 ∷ b'u' ∷ b'n' ∷ b'o' ∷ b'p' ∷ b'e' ∷ b'n' ∷ b'e' ∷ b'd'
    ∷ 32 ∷ b'o' ∷ b'r' ∷ 32 ∷ b'i' ∷ b'n' ∷ b'v' ∷ b'a' ∷ b'l' ∷ b'i' ∷ b'd' ∷ 32 ∷ b'f' ∷ b'd' ∷ 32
    ∷ b'f' ∷ b'a' ∷ b'i' ∷ b'l' ∷ 10 ∷ 0 ∷ []

abbrev pub read_unopened : List ℕ
read_unopened =
    b'r' ∷ b'e' ∷ b'a' ∷ b'd' ∷ 32 ∷ b'f' ∷ b'r' ∷ b'o' ∷ b'm' ∷ 32 ∷ b'u' ∷ b'n' ∷ b'o' ∷ b'p'
    ∷ b'e' ∷ b'n' ∷ b'e' ∷ b'd' ∷ 32 ∷ b'f' ∷ b'd' ∷ 32 ∷ b'f' ∷ b'a' ∷ b'i' ∷ b'l' ∷ 10 ∷ 0 ∷ []

abbrev pub write_unopened : List ℕ
write_unopened =
    b'w' ∷ b'r' ∷ b'i' ∷ b't' ∷ b'e' ∷ 32 ∷ b't' ∷ b'o' ∷ 32 ∷ b'u' ∷ b'n' ∷ b'o' ∷ b'p' ∷ b'e'
    ∷ b'n' ∷ b'e' ∷ b'd' ∷ 32 ∷ b'f' ∷ b'd' ∷ 32 ∷ b'f' ∷ b'a' ∷ b'i' ∷ b'l' ∷ 10 ∷ 0 ∷ []

abbrev pub unopened_fail : List ℕ
unopened_fail =
    b'e' ∷ b'r' ∷ b'r' ∷ b'_' ∷ b'u' ∷ b'n' ∷ b'o' ∷ b'p' ∷ b'e' ∷ b'n' ∷ b'e' ∷ b'd' ∷ b':' ∷ 32
    ∷ b'F' ∷ b'A' ∷ b'I' ∷ b'L' ∷ 10 ∷ 0 ∷ []

abbrev pub unopened_pass : List ℕ
unopened_pass =
    b'e' ∷ b'r' ∷ b'r' ∷ b'_' ∷ b'u' ∷ b'n' ∷ b'o' ∷ b'p' ∷ b'e' ∷ b'n' ∷ b'e' ∷ b'd' ∷ b':' ∷ 32
    ∷ b'P' ∷ b'A' ∷ b'S' ∷ b'S' ∷ 10 ∷ 0 ∷ []

abbrev pub null_fail : List ℕ
null_fail =
    b'N' ∷ b'u' ∷ b'l' ∷ b'l' ∷ 32 ∷ b'p' ∷ b'o' ∷ b'i' ∷ b'n' ∷ b't' ∷ b'e' ∷ b'r' ∷ 32 ∷ b'f'
    ∷ b'a' ∷ b'i' ∷ b'l' ∷ 10 ∷ 0 ∷ []

abbrev pub kernel_fail : List ℕ
kernel_fail =
    b'K' ∷ b'e' ∷ b'r' ∷ b'n' ∷ b'e' ∷ b'l' ∷ 32 ∷ b'p' ∷ b'o' ∷ b'i' ∷ b'n' ∷ b't' ∷ b'e' ∷ b'r'
    ∷ 32 ∷ b'f' ∷ b'a' ∷ b'i' ∷ b'l' ∷ 32 ∷ b'f' ∷ b'a' ∷ b'i' ∷ b'l' ∷ 10 ∷ 0 ∷ []

abbrev pub vidmap_fail : List ℕ
vidmap_fail =
    b'e' ∷ b'r' ∷ b'r' ∷ b'_' ∷ b'v' ∷ b'i' ∷ b'd' ∷ b'm' ∷ b'a' ∷ b'p' ∷ b':' ∷ 32 ∷ b'F' ∷ b'A'
    ∷ b'I' ∷ b'L' ∷ 10 ∷ 0 ∷ []

abbrev pub vidmap_pass : List ℕ
vidmap_pass =
    b'e' ∷ b'r' ∷ b'r' ∷ b'_' ∷ b'v' ∷ b'i' ∷ b'd' ∷ b'm' ∷ b'a' ∷ b'p' ∷ b':' ∷ 32 ∷ b'P' ∷ b'A'
    ∷ b'S' ∷ b'S' ∷ 10 ∷ 0 ∷ []

abbrev pub stdin_fail : List ℕ
stdin_fail =
    b'w' ∷ b'r' ∷ b'i' ∷ b't' ∷ b'e' ∷ 32 ∷ b't' ∷ b'o' ∷ 32 ∷ b's' ∷ b't' ∷ b'd' ∷ b'i' ∷ b'n' ∷ 32
    ∷ b'f' ∷ b'a' ∷ b'i' ∷ b'l' ∷ 10 ∷ 0 ∷ []

abbrev pub stdout_fail : List ℕ
stdout_fail =
    b'r' ∷ b'e' ∷ b'a' ∷ b'd' ∷ 32 ∷ b'f' ∷ b'r' ∷ b'o' ∷ b'm' ∷ 32 ∷ b's' ∷ b't' ∷ b'd' ∷ b'o'
    ∷ b'u' ∷ b't' ∷ 32 ∷ b'f' ∷ b'a' ∷ b'i' ∷ b'l' ∷ 10 ∷ 0 ∷ []

abbrev pub stdin_out_fail : List ℕ
stdin_out_fail =
    b'e' ∷ b'r' ∷ b'r' ∷ b'_' ∷ b's' ∷ b't' ∷ b'd' ∷ b'i' ∷ b'n' ∷ b'_' ∷ b'o' ∷ b'u' ∷ b't' ∷ b':'
    ∷ 32 ∷ b'F' ∷ b'A' ∷ b'I' ∷ b'L' ∷ 10 ∷ 0 ∷ []

abbrev pub stdin_out_pass : List ℕ
stdin_out_pass =
    b'e' ∷ b'r' ∷ b'r' ∷ b'_' ∷ b's' ∷ b't' ∷ b'd' ∷ b'i' ∷ b'n' ∷ b'_' ∷ b'o' ∷ b'u' ∷ b't' ∷ b':'
    ∷ 32 ∷ b'P' ∷ b'A' ∷ b'S' ∷ b'S' ∷ 10 ∷ 0 ∷ []

abbrev pub zero_num_fail : List ℕ
zero_num_fail =
    b's' ∷ b'y' ∷ b's' ∷ b'c' ∷ b'a' ∷ b'l' ∷ b'l' ∷ 32 ∷ b'0' ∷ 32 ∷ b'f' ∷ b'a' ∷ b'i' ∷ b'l' ∷ 10
    ∷ 0 ∷ []

abbrev pub big_num_fail : List ℕ
big_num_fail =
    b'b' ∷ b'i' ∷ b'g' ∷ 32 ∷ b'n' ∷ b'u' ∷ b'm' ∷ 32 ∷ b's' ∷ b'y' ∷ b's' ∷ b'c' ∷ b'a' ∷ b'l'
    ∷ b'l' ∷ 32 ∷ b'f' ∷ b'a' ∷ b'i' ∷ b'l' ∷ 10 ∷ 0 ∷ []

abbrev pub neg_num_fail : List ℕ
neg_num_fail =
    b'n' ∷ b'e' ∷ b'g' ∷ 32 ∷ b'n' ∷ b'u' ∷ b'm' ∷ 32 ∷ b's' ∷ b'y' ∷ b's' ∷ b'c' ∷ b'a' ∷ b'l'
    ∷ b'l' ∷ 32 ∷ b'f' ∷ b'a' ∷ b'i' ∷ b'l' ∷ 10 ∷ 0 ∷ []

abbrev pub syscall_num_fail : List ℕ
syscall_num_fail =
    b'e' ∷ b'r' ∷ b'r' ∷ b'_' ∷ b's' ∷ b'y' ∷ b's' ∷ b'c' ∷ b'a' ∷ b'l' ∷ b'l' ∷ b'_' ∷ b'n' ∷ b'u'
    ∷ b'm' ∷ b':' ∷ 32 ∷ b'F' ∷ b'A' ∷ b'I' ∷ b'L' ∷ 10 ∷ 0 ∷ []

abbrev pub syscall_num_pass : List ℕ
syscall_num_pass =
    b'e' ∷ b'r' ∷ b'r' ∷ b'_' ∷ b's' ∷ b'y' ∷ b's' ∷ b'c' ∷ b'a' ∷ b'l' ∷ b'l' ∷ b'_' ∷ b'n' ∷ b'u'
    ∷ b'm' ∷ b':' ∷ 32 ∷ b'P' ∷ b'A' ∷ b'S' ∷ b'S' ∷ 10 ∷ 0 ∷ []

abbrev pub choose_test : List ℕ
choose_test =
    b'C' ∷ b'h' ∷ b'o' ∷ b'o' ∷ b's' ∷ b'e' ∷ 32 ∷ b'f' ∷ b'r' ∷ b'o' ∷ b'm' ∷ 32 ∷ b't' ∷ b'e'
    ∷ b's' ∷ b't' ∷ b's' ∷ 32 ∷ b'1' ∷ b'-' ∷ b'8' ∷ b'.' ∷ 32 ∷ b'0' ∷ 32 ∷ b't' ∷ b'o' ∷ 32 ∷ b'r'
    ∷ b'u' ∷ b'n' ∷ 32 ∷ b'a' ∷ b'l' ∷ b'l' ∷ b':' ∷ 32 ∷ 0 ∷ []

abbrev pub cannot_read : List ℕ
cannot_read =
    b'C' ∷ b'a' ∷ b'n' ∷ 39 ∷ b't' ∷ 32 ∷ b'r' ∷ b'e' ∷ b'a' ∷ b'd' ∷ 32 ∷ b't' ∷ b'e' ∷ b's' ∷ b't'
    ∷ 32 ∷ b'#' ∷ 10 ∷ 0 ∷ []

abbrev pub overall_fail : List ℕ
overall_fail =
    10 ∷ b'O' ∷ b'v' ∷ b'e' ∷ b'r' ∷ b'a' ∷ b'l' ∷ b'l' ∷ 32 ∷ b'T' ∷ b'e' ∷ b's' ∷ b't' ∷ b's'
    ∷ b':' ∷ 32 ∷ b'F' ∷ b'A' ∷ b'I' ∷ b'L' ∷ 10 ∷ 0 ∷ []

abbrev pub overall_pass : List ℕ
overall_pass =
    10 ∷ b'O' ∷ b'v' ∷ b'e' ∷ b'r' ∷ b'a' ∷ b'l' ∷ b'l' ∷ 32 ∷ b'T' ∷ b'e' ∷ b's' ∷ b't' ∷ b's'
    ∷ b':' ∷ 32 ∷ b'P' ∷ b'A' ∷ b'S' ∷ b'S' ∷ 10 ∷ 0 ∷ []

abbrev pub invalid_test : List ℕ
invalid_test =
    b'I' ∷ b'n' ∷ b'v' ∷ b'a' ∷ b'l' ∷ b'i' ∷ b'd' ∷ 32 ∷ b't' ∷ b'e' ∷ b's' ∷ b't' ∷ 32 ∷ b'n'
    ∷ b'u' ∷ b'm' ∷ b'b' ∷ b'e' ∷ b'r' ∷ b'.' ∷ 32 ∷ b'C' ∷ b'h' ∷ b'o' ∷ b'o' ∷ b's' ∷ b'e' ∷ 32
    ∷ b'f' ∷ b'r' ∷ b'o' ∷ b'm' ∷ 32 ∷ b't' ∷ b'e' ∷ b's' ∷ b't' ∷ b's' ∷ 32 ∷ b'1' ∷ b'-' ∷ b'8'
    ∷ 32 ∷ b'o' ∷ b'r' ∷ 32 ∷ b'0' ∷ 0 ∷ []
