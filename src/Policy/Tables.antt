-- ===== src/Policy/Tables.antt =====
-- The tables of apps/api/app/tools/policy.py, in their order.
use Prim.Native.String.{◌++◌ as append}
use loop_agent.Prelude.{String, List, [], ◌∷◌}

-- `_DENY`: patterns of commands that are never run, and what they stand for.
abbrev pub deny : List (String × String)
deny =
    (
      "\\brm\\b(?=[^;|&\\n]*(?:-[a-z]*r|--recursive))(?=[^;|&\\n]*(?:-[a-z]*f|--force))",
      "recursive force-delete",
    )
    ∷ (
      "\\brm\\b(?=[^;|&\\n]*(?:-[a-z]*r|--recursive))[^;|&\\n]*\\s(/|~|\\*)",
      "recursive delete of a broad path",
    )
    ∷ ("\\bshutil\\.rmtree\\b|\\bos\\.removedirs\\b", "recursive delete via a Python library")
    ∷ ("\\b(rm|rmdir)(Sync)?\\s*\\([^;\\n]*recursive", "recursive delete via a Node fs call")
    ∷ ("\\b(sudo|doas|pkexec)\\b|\\bsu\\s+-", "privilege escalation")
    ∷ (
      "(?:^|[\\n;|&(]\\s*|\\b(?:sudo|doas|nohup|env|time|exec)\\s+)mkfs(\\.\\w+)?\\b",
      "format a filesystem",
    )
    ∷ (
      (append "(\\bof=/dev/|>\\s*/dev/|\\btee\\b[^;|&\\n]*/dev/|\\bcp\\b[^;|&\\n]*\\s/dev/)(sd|nv"
          "me|disk|hd|vd|mmcblk|loop)"),
      "writing to a raw block device",
    )
    ∷ ("\\b(shutdown|reboot|halt|poweroff)\\b|\\b(init|telinit)\\s+[06]\\b", "power control")
    ∷ ("(?:\\b\\w+|:)\\s*\\(\\s*\\)\\s*\\{[^}&|]*\\|[^}&]*&", "fork bomb")
    ∷ (
      (append "\\b(curl|wget|fetch|aria2c|axel)\\b[^;&\\n]*\\|\\s*(sudo\\s+)?(sh|bash|zsh|dash|py"
          "thon3?|perl|ruby|node|php)\\b"),
      "piping the network into an interpreter",
    )
    ∷ (
      "\\bchmod\\b(?=[^;|&\\n]*\\b0?777\\b)(?=[^;|&\\n]*\\s(?:/|~))",
      "world-writable on a broad path",
    )
    ∷ ("/etc/(passwd|shadow|gshadow|sudoers)", "touching system credential files")
    ∷ (
      (append "\\bn(c|cat)\\b[^;|&\\n]*\\s-[a-z]*[ec]\\b|\\bsocat\\b[^;|&\\n]*(exec|system):|>&\\"
          "s*/dev/tcp"),
      "reverse shell",
    )
    ∷ ("\\bdup2\\b[^;\\n]*\\bfileno\\b|\\bpty\\.spawn\\b", "interpreter reverse shell")
    ∷ []

-- `_NETWORK`: patterns of commands that reach the network.
abbrev pub network : List (String × String)
network =
    ("\\bcurl\\b", "curl")
    ∷ ("\\bwget\\b", "wget")
    ∷ ("\\b(nc|ncat|telnet|socat)\\b", "raw socket")
    ∷ ("\\b(ssh|scp|sftp|rsync)\\b", "remote shell/copy")
    ∷ ("\\bftp\\b", "ftp")
    ∷ ("\\bgit\\s+(clone|pull|push|fetch|ls-remote)\\b", "git network op")
    ∷ ("\\bpip3?\\s+(install|download)\\b", "pip download")
    ∷ ("\\buv\\s+(pip\\s+)?(install|add|sync)\\b", "uv install")
    ∷ ("\\b(npm|pnpm|yarn)\\s+(install|add|ci|i)\\b", "node package install")
    ∷ ("\\bbrew\\s+(install|update|upgrade)\\b", "brew")
    ∷ ("\\bapt(-get)?\\s+(install|update)\\b", "apt")
    ∷ ("\\bgo\\s+get\\b|\\bcargo\\s+(install|add|fetch)\\b", "package fetch")
    ∷ ("/dev/(tcp|udp)/", "bash /dev/tcp socket")
    ∷ ("\\b(aria2c|axel|wget2|httpie)\\b", "downloader")
    ∷ ("\\b(lynx|w3m|links|elinks)\\b", "text browser")
    ∷ ("\\b(dig|nslookup|ping|traceroute|tracepath)\\b", "network probe")
    ∷ (
      (append "\\b(python3?|node|deno|bun|ruby|perl|php)\\b[^;&|]*(import\\s+(urllib|requests|htt" (
          append
            "px|socket|http|aiohttp|ftplib|smtplib)|urllib\\.|requests\\.(get|post|put|delete|p"
            (append
              "atch|head|request|Session)|urlopen|socket\\.socket|http\\.client|aiohttp\\.|net/ht"
              (append
                "tp|Net::HTTP|\\bLWP\\b|IO::Socket|fetch\\s*\\(|require\\(\\s*['\\\"](?:node:)?(?:h"
                (append
                  "ttps?|net|dgram|tls|dns|http2)\\b|\\bnet\\.(?:connect|createConnection)|\\bhttps?"
                  "\\.(?:request|get)\\b|open-uri|file_get_contents|['\\\"]https?://)"))))),
      "interpreter network access",
    )
    ∷ []

-- `_ALLOW_PREFIXES`
abbrev pub allow_prefixes : List String
allow_prefixes =
    "python" ∷ "python3" ∷ "pip" ∷ "pip3" ∷ "uv" ∷ "node" ∷ "npm" ∷ "npx" ∷ "pnpm" ∷ "yarn" ∷ "ls"
    ∷ "cat" ∷ "echo" ∷ "pwd" ∷ "mkdir" ∷ "touch" ∷ "head" ∷ "tail" ∷ "wc" ∷ "tree" ∷ "grep" ∷ "rg"
    ∷ "find" ∷ "sed" ∷ "awk" ∷ "sort" ∷ "uniq" ∷ "cut" ∷ "diff" ∷ "cmp" ∷ "cp" ∷ "mv" ∷ "true"
    ∷ "false" ∷ "env" ∷ "printf" ∷ "which" ∷ "type" ∷ "date" ∷ "test" ∷ "pytest" ∷ "ruff" ∷ "mypy"
    ∷ "black" ∷ "tsc" ∷ "eslint" ∷ "prettier" ∷ "go" ∷ "cargo" ∷ "rustc" ∷ "javac" ∷ "java" ∷ "make"
    ∷ "cmake" ∷ "git" ∷ "jq" ∷ "sqlite3" ∷ []

-- `_NET_IN_CODE`
abbrev pub net_in_code : String
net_in_code =
    (append "(urllib|requests|httpx|http\\.client|aiohttp|urlopen|socket\\.|ftplib|smtplib|net/" (
      append "http|open-uri|file_get_contents|fetch\\s*\\(|https?://|/dev/tcp/|require\\(\\s*['" (
        append "\\\"](?:net|http|https|http2|dgram|dns|tls)['\\\"]\\s*\\)|\\bnet\\.(?:connect|crea"
          "teConnection|Socket)|\\bhttps?\\.(?:request|get)\\b)")))

-- `_SCRIPT_ARG`
abbrev pub script_arg : String
script_arg = "(?:^|/)[\\w.\\-]+\\.(py|js|mjs|cjs|ts|rb|pl|php|sh|bash)$"

-- `_INTERPRETERS`
abbrev pub interpreters : List String
interpreters =
    "python" ∷ "python3" ∷ "node" ∷ "deno" ∷ "bun" ∷ "ruby" ∷ "perl" ∷ "php" ∷ "sh" ∷ "bash" ∷ []
