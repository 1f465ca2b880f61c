-- ===== src/Lint/Includes/CppHeaders.antt =====
-- cpplint.py, `_CPP_HEADERS`.
use netproject_c.Prelude.{List, [], ◌∷◌, Text, text}

unfoldable pub cpp_headers : List Text
cpp_headers =
    text "algobase.h"
    ∷ text "algo.h"
    ∷ text "alloc.h"
    ∷ text "builtinbuf.h"
    ∷ text "bvector.h"
    ∷ text "complex.h"
    ∷ text "defalloc.h"
    ∷ text "deque.h"
    ∷ text "editbuf.h"
    ∷ text "fstream.h"
    ∷ text "function.h"
    ∷ text "hash_map"
    ∷ text "hash_map.h"
    ∷ text "hash_set"
    ∷ text "hash_set.h"
    ∷ text "hashtable.h"
    ∷ text "heap.h"
    ∷ text "indstream.h"
    ∷ text "iomanip.h"
    ∷ text "iostream.h"
    ∷ text "istream.h"
    ∷ text "iterator.h"
    ∷ text "list.h"
    ∷ text "map.h"
    ∷ text "multimap.h"
    ∷ text "multiset.h"
    ∷ text "ostream.h"
    ∷ text "pair.h"
    ∷ text "parsestream.h"
    ∷ text "pfstream.h"
    ∷ text "procbuf.h"
    ∷ text "pthread_alloc"
    ∷ text "pthread_alloc.h"
    ∷ text "rope"
    ∷ text "rope.h"
    ∷ text "ropeimpl.h"
    ∷ text "set.h"
    ∷ text "slist"
    ∷ text "slist.h"
    ∷ text "stack.h"
    ∷ text "stdiostream.h"
    ∷ text "stl_alloc.h"
    ∷ text "stl_relops.h"
    ∷ text "streambuf.h"
    ∷ text "stream.h"
    ∷ text "strfile.h"
    ∷ text "strstream.h"
    ∷ text "tempbuf.h"
    ∷ text "tree.h"
    ∷ text "type_traits.h"
    ∷ text "vector.h"
    ∷ text "algorithm"
    ∷ text "array"
    ∷ text "atomic"
    ∷ text "bitset"
    ∷ text "chrono"
    ∷ text "codecvt"
    ∷ text "complex"
    ∷ text "condition_variable"
    ∷ text "deque"
    ∷ text "exception"
    ∷ text "forward_list"
    ∷ text "fstream"
    ∷ text "functional"
    ∷ text "future"
    ∷ text "initializer_list"
    ∷ text "iomanip"
    ∷ text "ios"
    ∷ text "iosfwd"
    ∷ text "iostream"
    ∷ text "istream"
    ∷ text "iterator"
    ∷ text "limits"
    ∷ text "list"
    ∷ text "locale"
    ∷ text "map"
    ∷ text "memory"
    ∷ text "mutex"
    ∷ text "new"
    ∷ text "numeric"
    ∷ text "ostream"
    ∷ text "queue"
    ∷ text "random"
    ∷ text "ratio"
    ∷ text "regex"
    ∷ text "scoped_allocator"
    ∷ text "set"
    ∷ text "sstream"
    ∷ text "stack"
    ∷ text "stdexcept"
    ∷ text "streambuf"
    ∷ text "string"
    ∷ text "strstream"
    ∷ text "system_error"
    ∷ text "thread"
    ∷ text "tuple"
    ∷ text "typeindex"
    ∷ text "typeinfo"
    ∷ text "type_traits"
    ∷ text "unordered_map"
    ∷ text "unordered_set"
    ∷ text "utility"
    ∷ text "valarray"
    ∷ text "vector"
    ∷ text "shared_mutex"
    ∷ text "any"
    ∷ text "charconv"
    ∷ text "execution"
    ∷ text "filesystem"
    ∷ text "memory_resource"
    ∷ text "optional"
    ∷ text "string_view"
    ∷ text "variant"
    ∷ text "cassert"
    ∷ text "ccomplex"
    ∷ text "cctype"
    ∷ text "cerrno"
    ∷ text "cfenv"
    ∷ text "cfloat"
    ∷ text "cinttypes"
    ∷ text "ciso646"
    ∷ text "climits"
    ∷ text "clocale"
    ∷ text "cmath"
    ∷ text "csetjmp"
    ∷ text "csignal"
    ∷ text "cstdalign"
    ∷ text "cstdarg"
    ∷ text "cstdbool"
    ∷ text "cstddef"
    ∷ text "cstdint"
    ∷ text "cstdio"
    ∷ text "cstdlib"
    ∷ text "cstring"
    ∷ text "ctgmath"
    ∷ text "ctime"
    ∷ text "cuchar"
    ∷ text "cwchar"
    ∷ text "cwctype"
    ∷ []
